-- ===== src/Alert.antt =====
-- src/lib/alert.ts: an alert as a POST to a webhook. `fetch` with its deadline is a parameter, which
-- answers `res.ok`; the log is output.
use elysiajs_production_api.Base.{
  Bool, false, Option, List, ◌++◌, Text, codes, is_empty, if◌then◌else◌,
}
use elysiajs_production_api.Errors.{Call, pure, try_catch}
use elysiajs_production_api.Config.{Env, NodeEnv, development, production, test}

pub record Alert : Type 0 where
  pub title : Text
  pub message : Text
  -- the fields of `context`, with the ones that are undefined
  pub fields : List (Text × Option Text)

-- The body: `text`, and the alert itself.
pub record AlertBody : Type 0 where
  pub text : Text
  pub alert : Alert

abbrev pub node_env_text : NodeEnv → Text
node_env_text development = codes "development"
node_env_text production = codes "production"
node_env_text test = codes "test"

abbrev pub alert_body : Env → Alert → AlertBody
alert_body env a = record {
  text =
      codes "["
      ++ (node_env_text env.node_env ++ (codes "] " ++ (a.title ++ (codes ": " ++ a.message))));
  alert = a;
}

module _ {S : Type 0} (fetch : Text → AlertBody → Call S Bool) where
  -- `res.ok` decides the answer; what `fetch` throws is caught.
  unfoldable pub send_alert : Env → Alert → Call S Bool
  send_alert env a =
      if is_empty env.alert_webhook_url
      then pure false
      else try_catch (fetch env.alert_webhook_url (alert_body env a)) (λ e. pure false)

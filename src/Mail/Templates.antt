-- ===== src/Mail/Templates.antt =====
-- src/lib/mail-templates.ts: escaping, the HTML frame of all messages, and the two messages.
pub mod Escapes
pub mod Markup
use elysiajs_production_api.Base.{
  ℕ, Bool, Option, none, some, List, [], ◌∷◌, ◌++◌, map, Text, codes, is_empty, ◌==◌, if◌then◌else◌,
}
use elysiajs_production_api.Config.{Env}

-- `Mail` of src/lib/mailer.ts
pub record Message : Type 0 where
  pub to : Text
  pub subject : Text
  pub text : Text
  pub html : Option Text

-- `value.replace(/c/g, r)`
unfoldable pub replace_all : ℕ → Text → Text → Text
replace_all c r [] = []
replace_all c r (d ∷ s) = if d == c then r ++ replace_all c r s else d ∷ replace_all c r s

-- The characters `&`, `<`, `>`, `"` and `'`, in this order.
unfoldable pub escape_html : Text → Text
unfolding replace_all
escape_html value = replace_all 39 (codes "&#39;") (
    replace_all 34 (codes "&quot;") (
      replace_all 62 (codes "&gt;")
        (replace_all 60 (codes "&lt;") (replace_all 38 (codes "&amp;") value))))

pub record EmailContent : Type 0 where
  pub heading : Text
  pub lines : List Text
  pub code : Option Text
  pub footer : Option Text

abbrev pub paragraph : Text → Text
paragraph line =
    codes "<p style=\"margin:0 0 12px;font-size:15px;line-height:1.6;color:#333333;\">"
    ++ (escape_html line ++ codes "</p>")

-- `lines.join("\n")`
abbrev pub join_lines : List Text → Text
join_lines [] = []
join_lines (p ∷ []) = p
join_lines (p ∷ q ∷ ps) = p ++ (10 ∷ join_lines (q ∷ ps))

abbrev pub code_box : Text → Text
code_box code =
    codes
      "<div style=\"margin:20px 0;padding:14px 0;background:#f4f5f7;border-radius:8px;text-align:center;font-family:SFMono-Regular,Menlo,Consolas,monospace;font-size:28px;letter-spacing:8px;color:#111111;\">"
    ++ (escape_html code ++ codes "</div>")

abbrev pub small_print : Text → Text
small_print footer =
    codes "<p style=\"margin:16px 0 0;font-size:12px;line-height:1.5;color:#8a8f98;\">"
    ++ (escape_html footer ++ codes "</p>")

-- `x ? render(x) : ""`
abbrev pub rendered : (Text → Text) → Option Text → Text
rendered render none = []
rendered render (some t) = if is_empty t then [] else render t

-- The frame, up to the product's name, and between the parts. Indentation is part of the text.
abbrev pub frame_head : Text
frame_head =
    codes
      "<!DOCTYPE html>\n<html lang=\"en\">\n<body style=\"margin:0;padding:0;background:#eef0f3;\">\n  <table role=\"presentation\" width=\"100%\" cellpadding=\"0\" cellspacing=\"0\" style=\"background:#eef0f3;padding:32px 16px;\">\n    <tr>\n      <td align=\"center\">\n        <table role=\"presentation\" width=\"100%\" cellpadding=\"0\" cellspacing=\"0\" style=\"max-width:480px;background:#ffffff;border-radius:12px;padding:32px;font-family:-apple-system,BlinkMacSystemFont,'Segoe UI',Roboto,Helvetica,Arial,sans-serif;\">\n          <tr>\n            <td>\n              <p style=\"margin:0 0 20px;font-size:13px;font-weight:600;letter-spacing:1px;text-transform:uppercase;color:#8a8f98;\">"

abbrev pub frame_heading : Text
frame_heading =
    codes "</p>\n              <h1 style=\"margin:0 0 16px;font-size:20px;color:#111111;\">"

abbrev pub frame_body : Text
frame_body = codes "</h1>\n              "

abbrev pub frame_gap : Text
frame_gap = codes "\n              "

abbrev pub frame_end : Text
frame_end =
    codes
      "\n            </td>\n          </tr>\n        </table>\n      </td>\n    </tr>\n  </table>\n</body>\n</html>"

unfoldable pub render_email_html : Env → EmailContent → Text
render_email_html env content =
    frame_head
    ++ (escape_html env.app_name
        ++ (frame_heading
            ++ (escape_html content.heading
                ++ (frame_body
                    ++ (join_lines (map paragraph content.lines)
                        ++ (frame_gap
                            ++ (rendered code_box content.code
                                ++ (frame_gap
                                    ++ (rendered small_print content.footer ++ frame_end)))))))))

unfoldable pub verification_code_email : Env → Text → Text → Message
verification_code_email env to code = record {
  to = to;
  subject = codes "Your verification code";
  text = codes "Your email verification code is " ++ (code ++ codes ". It expires in 10 minutes.");
  html = some (
      render_email_html env (record {
        heading = codes "Verify your email";
        lines = codes "Use this code to verify your email address:" ∷ [];
        code = some code;
        footer = some (
            codes
              "The code expires in 10 minutes. If you didn't request it, you can ignore this email.");
      }));
}

unfoldable pub password_reset_code_email : Env → Text → Text → Message
password_reset_code_email env to code = record {
  to = to;
  subject = codes "Your password reset code";
  text =
      codes "Your password reset code is "
      ++ (code
          ++ codes ". It expires in 15 minutes. If you didn't request this, ignore this email.");
  html = some (
      render_email_html env (record {
        heading = codes "Reset your password";
        lines = codes "Use this code to reset your password:" ∷ [];
        code = some code;
        footer = some (
            codes
              "The code expires in 15 minutes. If you didn't request this, ignore this email — your password is unchanged.");
      }));
}

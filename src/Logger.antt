-- ===== src/Logger.antt =====
-- `rotatedName` of src/lib/logger.ts: the names of the log files. What is logged where is pino's, and
-- when a file is rotated is rotating-file-stream's.
pub mod Names
use elysiajs_production_api.Base.{
  ℕ, suc, ◌+◌, Option, none, some, [], ◌∷◌, ◌++◌, Text, codes, text_eq, if◌then◌else◌,
}
use elysiajs_production_api.Config.{Env}
use elysiajs_production_api.Auth.Otp.Codes.{to_decimal, pad_start}

-- What is read of a `Date`; the months count from 0.
pub record Date : Type 0 where
  pub full_year : ℕ
  pub month : ℕ
  pub day : ℕ

unfoldable pub pad : ℕ → Text
unfolding to_decimal pad_start
pad n = pad_start 2 (to_decimal n)

-- `s.replace(/\.log$/, "")`
unfoldable pub without_extension : Text → Text
without_extension [] = []
without_extension (c ∷ s) =
    let rest = without_extension s in if text_eq (c ∷ s) (codes ".log") then [] else c ∷ rest

unfoldable pub date_text : Date → Text
unfolding to_decimal pad
date_text d = to_decimal d.full_year ++ (pad (d.month + 1) ++ pad d.day)

-- A template writes a missing index as the word.
unfoldable pub index_text : Option ℕ → Text
unfolding to_decimal
index_text none = codes "undefined"
index_text (some index) = to_decimal index

-- The active file has no time.
unfoldable pub rotated_name : Env → Option Date → Option ℕ → Text
unfolding without_extension date_text index_text
rotated_name env none index = env.log_file
rotated_name env (some d) index =
    without_extension env.log_file
    ++ (b'-' ∷ (date_text d ++ (b'-' ∷ (index_text index ++ codes ".log"))))

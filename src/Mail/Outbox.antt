-- ===== src/Mail/Outbox.antt =====
-- The outbox implements its description: the last fifty messages that were sent.
use elysiajs_production_api.Base.{
  ℕ, zero, suc, ◌+◌, ◌-◌, ◌≤◌, ◌≡◌, refl, sym, ap, ◌∙◌, List, [], ◌∷◌, ◌++◌, Text, length,
  length-append, drop, ltb, inl, inr, arith, Bool-cases, if◌then◌else◌,
}
use elysiajs_production_api.Errors.{Result, ok, err, Call, >>=-cases}
use elysiajs_production_api.Config.{Env}
use elysiajs_production_api.Mail.Templates.{Message}
use elysiajs_production_api.Mail.{
  Mailer, Mode, sent, logged, capture, resolve_mode, outbox_limit, push, transport, send,
}

module _ {ℓ} {A : Type ℓ} where
  -- The last so many elements.
  abbrev pub last_of : ℕ → List A → List A
  last_of n l = drop (length l - n) l

  length-drop : (n : ℕ) (l : List A) → length (drop n l) ≡ length l - n
  length-drop zero l = omega arith
  length-drop (suc n) [] = omega arith
  length-drop (suc n) (x ∷ l) = omega (arith, length-drop n l)

  drop-append : (n : ℕ) (l k : List A) → n ≤ length l → drop n (l ++ k) ≡ drop n l ++ k
  drop-append zero l k h = refl
  drop-append (suc n) [] k h = absurd (omega arith)
  drop-append (suc n) (x ∷ l) k h = drop-append n l k (omega arith)

  drop-drop : (n : ℕ) (l : List A) → drop 1 (drop n l) ≡ drop (suc n) l
  drop-drop zero [] = refl
  drop-drop zero (x ∷ l) = refl
  drop-drop (suc n) [] = refl
  drop-drop (suc n) (x ∷ l) = drop-drop n l

push-last_of :
    (mail : Message) (history : List Message)
    → push mail (last_of outbox_limit history) ≡ last_of outbox_limit (history ++ (mail ∷ []))
unfolding push
push-last_of mail history =
    let n = length history - outbox_limit in
    let moved : drop n history ++ (mail ∷ []) ≡ drop n (history ++ (mail ∷ [])) =
      sym (drop-append n history (mail ∷ []) (omega arith)) in
    let size : length (drop n history ++ (mail ∷ [])) ≡ length history - n + 1 =
      length-append (drop n history) (mail ∷ []) ∙ omega (arith, length-drop n history) in
    let total : length (history ++ (mail ∷ [])) ≡ length history + 1 =
      omega (arith, length-append history (mail ∷ [])) in
    elim (Bool-cases (ltb outbox_limit (length (drop n history ++ (mail ∷ []))))) [
      | inl over ↦
          let same : suc n ≡ length (history ++ (mail ∷ [])) - outbox_limit = ground arith in
          rw (over, if◌then◌else◌)
            (ap (drop 1) moved
              ∙ drop-drop n (history ++ (mail ∷ []))
              ∙ ap (λ (k : ℕ). drop k (history ++ (mail ∷ []))) same)
      | inr within ↦
          let same : n ≡ length (history ++ (mail ∷ [])) - outbox_limit = ground arith in
          rw (within, if◌then◌else◌) (moved ∙ ap (λ (k : ℕ). drop k (history ++ (mail ∷ []))) same)
    ]

length-last_of-le : (n : ℕ) (l : List Message) → length (last_of n l) ≤ n
length-last_of-le n l = omega (arith, length-drop (length l - n) l)

module _ {S : Type 0} (send_mail : Text → Message → Call S (Unit {0})) where
  transport-outbox :
      (env : Env) (mode : Mode) (mail : Message) (m : Mailer S)
      → (transport send_mail env mode mail m).1.outbox ≡ m.outbox
  unfolding transport
  transport-outbox env sent mail m = refl
  transport-outbox env logged mail m = refl
  transport-outbox env capture mail m = refl

  -- What the outbox holds after a message: the history has grown by it, or it could not be sent.
  abbrev pub IsRecent : List Message → Message → Result (Unit {0}) × Mailer S → Type 0
  IsRecent history mail (ok u, m) = m.outbox ≡ last_of outbox_limit (history ++ (mail ∷ []))
  IsRecent history mail (err e, m) = m.outbox ≡ last_of outbox_limit history

  -- If the outbox holds the last fifty messages of a history, then after a message that is sent it holds
  -- the last fifty of the history and that message; if the transport throws, it is as it was. In both
  -- cases it has at most fifty messages.
  pub send-IsRecent :
      (env : Env) (mail : Message) (history : List Message) (m : Mailer S)
      → m.outbox ≡ last_of outbox_limit history
      → IsRecent history mail (send send_mail env mail m)
        × (length (send send_mail env mail m).1.outbox ≤ outbox_limit)
  unfolding send
  send-IsRecent env mail history m h =
      >>=-cases (transport send_mail env (resolve_mode env) mail) _ m
        (λ r. IsRecent history mail r × (length r.1.outbox ≤ outbox_limit))
        (λ u v e.
          let kept : v.outbox ≡ last_of outbox_limit history = same_outbox (ok u) v e in
          let now : push mail v.outbox ≡ last_of outbox_limit (history ++ (mail ∷ [])) =
            ap (push mail) kept ∙ push-last_of mail history in
          (now, rw now (length-last_of-le outbox_limit (history ++ (mail ∷ [])))))
        (λ x v e.
          let kept : v.outbox ≡ last_of outbox_limit history = same_outbox (err x) v e in
          (kept, rw kept (length-last_of-le outbox_limit history)))
    where
      same_outbox :
          (r : Result (Unit {0})) (v : Mailer S)
          → transport send_mail env (resolve_mode env) mail m ≡ (r, v)
          → v.outbox ≡ last_of outbox_limit history
      same_outbox r v e =
          ap (λ (x : Result (Unit {0}) × Mailer S). x.1.outbox) (sym e)
          ∙ transport-outbox env (resolve_mode env) mail m
          ∙ h

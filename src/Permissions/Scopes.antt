-- ===== src/Permissions/Scopes.antt =====
-- Which scopes the two roles are granted.
use mathlib.Core.Path.{subst}
use mathlib.Core.List.{append_cancel_right}
use elysiajs_production_api.Base.{
  ◌-◌, ◌≡◌, refl, sym, ◌∙◌, ap, Bool, true, false, ◌||◌, Option, none, some, [], ◌∷◌, ◌++◌, Text,
  codes, text_eq, text_eq_to, text_eq_self, mem_text, arith, length, length-append, drop, inl, inr,
  Bool-cases, if◌then◌else◌,
}
use elysiajs_production_api.Permissions.{
  user, Operation, create, read, update, delete, Scope, all, own, permission, operation_text,
  resolve_scope,
}

not_both : {b : Bool} → b ≡ true → b ≡ false → ⊥
not_both h k = cc

drop-append : (xs ys : Text) → drop (length xs) (xs ++ ys) ≡ ys
drop-append [] ys = refl
drop-append (x ∷ xs) ys = drop-append xs ys

-- A text that ends in `s` has `s` as its last characters.
end-eq : (xs s t : Text) → text_eq (xs ++ s) t ≡ true → s ≡ drop (length t - length s) t
end-eq xs s t h =
    let e : xs ++ s ≡ t = text_eq_to (xs ++ s) t h in
    let n : length t - length s ≡ length xs = omega (arith, ap length e, length-append xs s) in
    rw n (rw (← e) (sym (drop-append xs s)))

other_end :
    (xs s t : Text) → text_eq s (drop (length t - length s) t) ≡ false → text_eq (xs ++ s) t ≡ false
other_end xs s t h = elim (Bool-cases (text_eq (xs ++ s) t)) [
  | inl e ↦
      let same : text_eq s (drop (length t - length s) t) ≡ true =
        subst (λ x. text_eq s x ≡ true) (end-eq xs s t e) (text_eq_self s) in
      absurd (not_both same h)
  | inr e ↦ e
]

same_end : (xs ys s : Text) → text_eq (xs ++ s) (ys ++ s) ≡ text_eq xs ys
same_end xs ys s = elim (Bool-cases (text_eq (xs ++ s) (ys ++ s))) [
  | inl e ↦
      e
      ∙ sym (
          subst (λ x. text_eq xs x ≡ true) (append_cancel_right xs ys s (text_eq_to _ _ e))
            (text_eq_self xs))
  | inr e ↦ elim (Bool-cases (text_eq xs ys)) [
    | inl k ↦ absurd (
        not_both
          (subst (λ x. text_eq (xs ++ s) (x ++ s) ≡ true) (text_eq_to xs ys k)
            (text_eq_self (xs ++ s)))
          e)
    | inr k ↦ e ∙ sym k
  ]
]

-- What a user may do with users: all but create, and only at scope `own`.
abbrev pub user_scope : Operation → Option Scope
user_scope create = none
user_scope read = some own
user_scope update = some own
user_scope delete = some own

other :
    (model : Text) (op : Operation) (scope t : Text)
    → (let s = codes ":" ++ (operation_text op ++ (codes ":" ++ scope)) in
        text_eq s (drop (length t - length s) t) ≡ false)
    → text_eq (permission model op scope) t ≡ false
other model op scope t h = other_end model _ t h

read_own :
    (model : Text)
    → text_eq (permission model read (codes "own")) (codes "user:read:own")
      ≡ text_eq model (codes "user")
read_own model = same_end model (codes "user") (codes ":read:own")

update_own :
    (model : Text)
    → text_eq (permission model update (codes "own")) (codes "user:update:own")
      ≡ text_eq model (codes "user")
update_own model = same_end model (codes "user") (codes ":update:own")

delete_own :
    (model : Text)
    → text_eq (permission model delete (codes "own")) (codes "user:delete:own")
      ≡ text_eq model (codes "user")
delete_own model = same_end model (codes "user") (codes ":delete:own")

by_tests :
    {a b x y : Bool}
    → a ≡ x
    → b ≡ y
    → (if a then some all else if b then some own else none)
      ≡ (if x then some all else if y then some own else none)
by_tests p q i = if p i then some all else if q i then some own else none

-- Is a text one of the user's three permissions?
mem-grants :
    (model : Text) (op : Operation) (scope : Text) {x y z : Bool}
    → text_eq (permission model op scope) (codes "user:read:own") ≡ x
    → text_eq (permission model op scope) (codes "user:update:own") ≡ y
    → text_eq (permission model op scope) (codes "user:delete:own") ≡ z
    → mem_text
        (permission model op scope)
        (codes "user:read:own" ∷ codes "user:update:own" ∷ codes "user:delete:own" ∷ [])
      ≡ (x || (y || (z || false)))
mem-grants model op scope p q r i = p i || (q i || (r i || false))

or-false : (b : Bool) → (b || false) ≡ b
or-false true = refl
or-false false = refl

create_scope : (model : Text) → resolve_scope user model create ≡ none
unfolding resolve_scope
create_scope model =
    by_tests
      (mem-grants model create (codes "all")
        (other model create (codes "all") (codes "user:read:own") refl)
        (other model create (codes "all") (codes "user:update:own") refl)
        (other model create (codes "all") (codes "user:delete:own") refl))
      (mem-grants model create (codes "own")
        (other model create (codes "own") (codes "user:read:own") refl)
        (other model create (codes "own") (codes "user:update:own") refl)
        (other model create (codes "own") (codes "user:delete:own") refl))

read_scope :
    (model : Text)
    → resolve_scope user model read ≡ (if text_eq model (codes "user") then some own else none)
unfolding resolve_scope
read_scope model =
    by_tests
      (mem-grants model read (codes "all")
        (other model read (codes "all") (codes "user:read:own") refl)
        (other model read (codes "all") (codes "user:update:own") refl)
        (other model read (codes "all") (codes "user:delete:own") refl))
      (mem-grants model read (codes "own") (read_own model)
          (other model read (codes "own") (codes "user:update:own") refl)
          (other model read (codes "own") (codes "user:delete:own") refl)
        ∙ or-false (text_eq model (codes "user")))

update_scope :
    (model : Text)
    → resolve_scope user model update ≡ (if text_eq model (codes "user") then some own else none)
unfolding resolve_scope
update_scope model =
    by_tests
      (mem-grants model update (codes "all")
        (other model update (codes "all") (codes "user:read:own") refl)
        (other model update (codes "all") (codes "user:update:own") refl)
        (other model update (codes "all") (codes "user:delete:own") refl))
      (mem-grants model update (codes "own")
          (other model update (codes "own") (codes "user:read:own") refl) (update_own model)
          (other model update (codes "own") (codes "user:delete:own") refl)
        ∙ or-false (text_eq model (codes "user")))

delete_scope :
    (model : Text)
    → resolve_scope user model delete ≡ (if text_eq model (codes "user") then some own else none)
unfolding resolve_scope
delete_scope model =
    by_tests
      (mem-grants model delete (codes "all")
        (other model delete (codes "all") (codes "user:read:own") refl)
        (other model delete (codes "all") (codes "user:update:own") refl)
        (other model delete (codes "all") (codes "user:delete:own") refl))
      (mem-grants model delete (codes "own")
          (other model delete (codes "own") (codes "user:read:own") refl)
          (other model delete (codes "own") (codes "user:update:own") refl) (delete_own model)
        ∙ or-false (text_eq model (codes "user")))

-- A user is granted scope `own` on users, for reading, updating and deleting, and nothing else: no
-- other model, no creation, and never scope `all`.
pub resolve_scope-user :
    (model : Text) (op : Operation)
    → resolve_scope user model op ≡ (if text_eq model (codes "user") then user_scope op else none)
resolve_scope-user model create = elim (Bool-cases (text_eq model (codes "user"))) [
  | inl e ↦ rw (e, if◌then◌else◌) (create_scope model)
  | inr e ↦ rw (e, if◌then◌else◌) (create_scope model)
]
resolve_scope-user model read = read_scope model
resolve_scope-user model update = update_scope model
resolve_scope-user model delete = delete_scope model

-- ===== src/Services/Actions/Laws/Lift.antt =====
-- A call on a part of the state, taken apart.
use elysiajs_production_api.Base.{◌≡◌, ap, sym, ◌⊎◌, inl, inr}
use elysiajs_production_api.Errors.{Result}
use elysiajs_production_api.Services.Actions

pub on-eq :
    {W S A : Type 0} (part : W → S) (set : S → W → W) (op : S → Result A × S) (w : W) {r : Result A}
    {w' : W}
    → Actions.on part set op w ≡ (r, w')
    → (s : S) × (op (part w) ≡ (r, s)) × (w' ≡ set s w)
unfolding Actions.on
on-eq part set op w h = ((op (part w)).1, λ i. ((h i).0, (op (part w)).1), sym (λ i. (h i).1))

pub either_eq :
    {A B : Type 0} (f : A → B) {a b c : A} → (a ≡ b) ⊎ (a ≡ c) → (f a ≡ f b) ⊎ (f a ≡ f c)
either_eq f (inl e) = inl (ap f e)
either_eq f (inr e) = inr (ap f e)

-- ===== src/Codex/Shapes.antt =====
-- The layout of a text, as ts/src/codex.ts reads it: what its white space alone determines.
use Prim.Native.Char.{Char}
use text.Mathlib.TextLemmas.{cons≢nil}
use hellgraph.Base.{
  ==_iff, subst, ℕ, ◌+◌, String, Bool, true, false, ◌&&◌, ◌≡◌, refl, sym, ◌∙◌, ◌==◌, arith,
  Bool-cases, inl, inr, if◌then◌else◌,
}
use hellgraph.Base.Text.{append_text}
use hellgraph.Metta.{is_space}
use hellgraph.Auth.{trim, trim_start, trim_end}
use hellgraph.Codex.{space_runs, phi_spacing, count_tokens}

-- Two texts have white space in the same places.
abbrev pub SameShape : String → String → Type 0
SameShape String.[] String.[] = Unit
SameShape (String.◌∷◌ c s) (String.◌∷◌ d t) = (is_space c ≡ is_space d) × SameShape s t
SameShape _ _ = ⊥

pub SameShape-refl : (s : String) → SameShape s s
SameShape-refl String.[] = tt
SameShape-refl (String.◌∷◌ c s) = (refl, SameShape-refl s)

pub SameShape-append_text :
    (s t u : String) → SameShape t u → SameShape (append_text s t) (append_text s u)
unfolding append_text
SameShape-append_text String.[] t u h = h
SameShape-append_text (String.◌∷◌ c s) t u h = (refl, SameShape-append_text s t u h)

trim_start-SameShape : (s t : String) → SameShape s t → SameShape (trim_start s) (trim_start t)
unfolding trim_start
trim_start-SameShape String.[] String.[] h = tt
trim_start-SameShape String.[] (String.◌∷◌ d t) h = absurd h
trim_start-SameShape (String.◌∷◌ c s) String.[] h = absurd h
trim_start-SameShape (String.◌∷◌ c s) (String.◌∷◌ d t) h = elim (Bool-cases (is_space c)) [
  | inl yes_space ↦ rw (yes_space, sym h.0 ∙ yes_space) (trim_start-SameShape s t h.1)
  | inr no_space ↦ rw (no_space, sym h.0 ∙ no_space) h
]

cons-== : (c : Char) (s : String) → (String.◌∷◌ c s == "") ≡ false
cons-== c s = elim (Bool-cases (String.◌∷◌ c s == "")) [
  | inl same ↦ absurd (cons≢nil ((==_iff (String.◌∷◌ c s) "").0 same))
  | inr other ↦ other
]

is_empty-SameShape : (s t : String) → SameShape s t → (s == "") ≡ (t == "")
is_empty-SameShape String.[] String.[] h = refl
is_empty-SameShape String.[] (String.◌∷◌ d t) h = absurd h
is_empty-SameShape (String.◌∷◌ c s) String.[] h = absurd h
is_empty-SameShape (String.◌∷◌ c s) (String.◌∷◌ d t) h = cons-== c s ∙ sym (cons-== d t)

-- One step of `trim_end`, with what is left of the rest.
abbrev end_step : Char → String → String
end_step c r = if is_space c && r == "" then "" else String.◌∷◌ c r

end_step-SameShape :
    (c d : Char) (r q : String)
    → is_space c ≡ is_space d
    → SameShape r q
    → SameShape (end_step c r) (end_step d q)
end_step-SameShape c d r q e h =
    step (is_space c) (is_space d) (r == "") (q == "") e (is_empty-SameShape r q h)
  where
    both :
        (a x : Bool)
        → SameShape (if a && x then "" else String.◌∷◌ c r) (if a && x then "" else String.◌∷◌ d q)
    both true true = tt
    both true false = (e, h)
    both false x = (e, h)

    step :
        (a b : Bool) (x y : Bool)
        → a ≡ b
        → x ≡ y
        → SameShape (if a && x then "" else String.◌∷◌ c r) (if b && y then "" else String.◌∷◌ d q)
    step a b x y p w =
        subst
          (λ (v : Bool).
            SameShape (if a && x then "" else String.◌∷◌ c r)
              (if v && y then "" else String.◌∷◌ d q))
          p
          (subst
            (λ (v : Bool).
              SameShape (if a && x then "" else String.◌∷◌ c r)
                (if a && v then "" else String.◌∷◌ d q))
            w (both a x))

trim_end-SameShape : (s t : String) → SameShape s t → SameShape (trim_end s) (trim_end t)
unfolding trim_end
trim_end-SameShape String.[] String.[] h = tt
trim_end-SameShape String.[] (String.◌∷◌ d t) h = absurd h
trim_end-SameShape (String.◌∷◌ c s) String.[] h = absurd h
trim_end-SameShape (String.◌∷◌ c s) (String.◌∷◌ d t) h =
    end_step-SameShape c d (trim_end s) (trim_end t) h.0 (trim_end-SameShape s t h.1)

trim-SameShape : (s t : String) → SameShape s t → SameShape (trim s) (trim t)
unfolding trim
trim-SameShape s t h = trim_end-SameShape (trim_start s) (trim_start t) (trim_start-SameShape s t h)

space_runs-SameShape : (n : ℕ) (s t : String) → SameShape s t → space_runs n s ≡ space_runs n t
unfolding space_runs
space_runs-SameShape n String.[] String.[] h = refl
space_runs-SameShape n String.[] (String.◌∷◌ d t) h = absurd h
space_runs-SameShape n (String.◌∷◌ c s) String.[] h = absurd h
space_runs-SameShape n (String.◌∷◌ c s) (String.◌∷◌ d t) h =
    ground (arith, space_runs-SameShape (n + 1) s t h.1, space_runs-SameShape 0 s t h.1, h.0)

pub phi_spacing-SameShape : (s t : String) → SameShape s t → phi_spacing s ≡ phi_spacing t
unfolding phi_spacing
phi_spacing-SameShape s t h = space_runs-SameShape 0 (trim s) (trim t) (trim-SameShape s t h)

pub count_tokens-SameShape :
    (s t : String) → SameShape s t → count_tokens (trim s) ≡ count_tokens (trim t)
unfolding count_tokens
count_tokens-SameShape s t h = ground (
  arith,
  is_empty-SameShape (trim s) (trim t) (trim-SameShape s t h),
  space_runs-SameShape 0 (trim s) (trim t) (trim-SameShape s t h),
)

-- ===== src/Metta/Match/Queries.antt =====
-- Queries (ts/src/metta.ts, `runMetta`), and the printing of atoms that links refer to.
use mathlib.Core.List.{Memᴰ}
use mathlib.Core.Path.{ap₂}
use hellgraph.Base.{
  ℕ, zero, suc, ◌<◌, String, ◌≡◌, refl, sym, ap, ◌∙◌, false, Option, none, some, List, [], ◌∷◌,
  arith, ==_refl,
}
use hellgraph.AtomSpace.Values.{Handle}
use hellgraph.AtomSpace.Space.{Atom, AtomSpace}
use hellgraph.AtomSpace.Read.{outs, get_atom}
use hellgraph.Metta.{
  SExpr, symbol, list, nil, cons, ok, is_space, serialize, parse_sexpr, max_parse_depth,
}
use hellgraph.Metta.Tokens.{IsPrintable}
use hellgraph.Metta.RoundTrip.{nesting, parse_sexpr-serialize}
use hellgraph.Metta.Eval.{is_form, heads}
use hellgraph.Metta.Match.{
  atom_to_sexpr, items_of, shown, or_text, query, run_metta, answer, match_pattern,
}

-- `(match &self <pattern>)`
abbrev pub match_self : SExpr → SExpr
match_self pattern = list (cons (symbol "match") (cons (symbol "&self") (cons pattern nil)))

module _ {N : Type 0} (s : AtomSpace N) where
  -- Atoms are ranked when a link stands above the atoms that it refers to.
  abbrev pub IsRanked : (Handle → ℕ) → Type 0
  IsRanked rank =
      (h : Handle) (atom : Atom N) (target : Handle)
      → get_atom s h ≡ some atom
      → Memᴰ target (outs atom.outgoing)
      → rank target < rank h

  items_of_agree :
      (left right : Handle → SExpr) (hs : List Handle)
      → ((h : Handle) → Memᴰ h hs → left h ≡ right h)
      → items_of left hs ≡ items_of right hs
  items_of_agree left right [] agree = refl
  items_of_agree left right (h ∷ hs) agree =
      ap₂ cons (agree h (Memᴰ.head refl))
        (items_of_agree left right hs (λ x m. agree x (Memᴰ.tail m)))

  shown_agree :
      (left right : Handle → SExpr) (o : Option (Atom N))
      → ((atom : Atom N) (h : Handle)
          → o ≡ some atom
          → Memᴰ h (outs atom.outgoing)
          → left h ≡ right h)
      → shown s left o ≡ shown s right o
  shown_agree left right none agree = refl
  shown_agree left right (some atom) agree =
      by_outgoing (outs atom.outgoing) (λ h m. agree atom h refl m)
    where
      by_outgoing :
          (hs : List Handle)
          → ((h : Handle) → Memᴰ h hs → left h ≡ right h)
          → (elim hs [
            | [] ↦ symbol (or_text atom.name atom.type)
            | first ∷ others ↦ list (cons (symbol atom.type) (items_of left (first ∷ others)))
          ])
            ≡ (elim hs [
              | [] ↦ symbol (or_text atom.name atom.type)
              | first ∷ others ↦ list (cons (symbol atom.type) (items_of right (first ∷ others)))
            ])
      by_outgoing [] same = refl
      by_outgoing (h ∷ hs) same =
          ap (λ items. list (cons (symbol atom.type) items))
            (items_of_agree left right (h ∷ hs) same)

  -- When atoms are ranked, fuel above the rank of an atom is enough to print it: more changes nothing.
  pub atom_to_sexpr_agree :
      (rank : Handle → ℕ)
      → IsRanked rank
      → (f g : ℕ) (h : Handle) → rank h < f
      → rank h < g
      → atom_to_sexpr s f h ≡ atom_to_sexpr s g h
  unfolding atom_to_sexpr
  atom_to_sexpr_agree rank ranked zero g h f_le g_le = absurd (omega arith)
  atom_to_sexpr_agree rank ranked (suc f) zero h f_le g_le = absurd (omega arith)
  atom_to_sexpr_agree rank ranked (suc f) (suc g) h f_le g_le =
      shown_agree (atom_to_sexpr s f) (atom_to_sexpr s g) (get_atom s h) (λ atom target there m.
        atom_to_sexpr_agree rank ranked f g target (omega (arith, ranked h atom target there m))
          (omega (arith, ranked h atom target there m)))

  module _ (f : ℕ) where
    run_metta-query :
        (text : String) (e : SExpr) → parse_sexpr text ≡ ok e [] → run_metta s f text ≡ query s f e
    unfolding run_metta
    run_metta-query text e h = rw (run_metta, h) refl

    query_pattern :
        (e : SExpr) → is_form e "match" ≡ false → query s f e ≡ answer s f e (match_pattern s f e)
    unfolding query
    query_pattern e h = rw (query, h) refl

    query-match_self : (e : SExpr) → query s f (match_self e) ≡ answer s f e (match_pattern s f e)
    unfolding query is_form heads
    query-match_self e = rw (query, ==_refl "match") refl

    -- A bare pattern is answered as `(match &self <pattern>)`: the answers or the error are the
    -- same, when the pattern is printable, nests less than 512 deep and is no `match` form itself.
    pub run_metta-match_self :
        (pattern : SExpr)
        → IsPrintable pattern
        → nesting pattern < max_parse_depth
        → is_form pattern "match" ≡ false
        → run_metta s f (serialize (match_self pattern)) ≡ run_metta s f (serialize pattern)
    unfolding is_space
    run_metta-match_self pattern p n other =
        run_metta-query (serialize (match_self pattern)) (match_self pattern) (
          parse_sexpr-serialize (match_self pattern) ((refl, refl), ((refl, refl), (p, tt)))
            (omega arith))
        ∙ query-match_self pattern
        ∙ sym (query_pattern pattern other)
        ∙ sym (
            run_metta-query (serialize pattern) pattern
              (parse_sexpr-serialize pattern p (omega arith)))

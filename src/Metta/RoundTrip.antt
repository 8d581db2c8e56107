-- ===== src/Metta/RoundTrip.antt =====
-- Reading a printed S-expression back (ts/src/metta.ts, `serialize` and `parseSExpr`).
use hellgraph.Base.{
  ℕ, zero, suc, ◌+◌, ◌*◌, ◌≤◌, max, String, ◌≡◌, refl, sym, ap, ◌∙◌, true, false, List, [], ◌∷◌,
  arith, length, ltb, ◌==◌, inl, inr, Bool-cases, ==_iff, ==_refl,
}
use hellgraph.Base.Text.{append_text, append_text-nil}
use hellgraph.Metta.{
  SExpr, symbol, var, list, Items, nil, cons, is_space, tokenize, ok, leaf, parse_expr, parse_items,
  parse_sexpr, max_parse_depth, serialize, then_cons,
}
use hellgraph.Metta.Tokens.{
  is_clean, IsName, IsPrintable, ArePrintable, emit, emit_items, tokenize_printed, end-AtBoundary,
  tokenize_nil,
}

-- How deep lists nest in an expression, and in the items of a list.
abbrev mutual
  pub nesting : SExpr → ℕ
  nesting (symbol name) = 0
  nesting (var name) = 0
  nesting (list items) = nesting_items items

  pub nesting_items : Items → ℕ
  nesting_items nil = 0
  nesting_items (cons e items) = max (1 + nesting e) (nesting_items items)

-- The calls that reading an expression takes.
abbrev mutual
  cost : SExpr → ℕ
  cost (symbol name) = 1
  cost (var name) = 1
  cost (list items) = 1 + cost_items items

  cost_items : Items → ℕ
  cost_items nil = 1
  cost_items (cons e items) = 1 + (cost e + cost_items items)

mutual
  cost_le : (e : SExpr) (ts : List String) → cost e + 1 + 2 * length ts ≤ 2 * length (emit e ts)
  cost_le (symbol name) ts = omega arith
  cost_le (var name) ts = omega arith
  cost_le (list items) ts = omega (arith, cost_items_le items ts)

  cost_items_le :
      (items : Items) (ts : List String)
      → cost_items items + 2 * length ts ≤ 2 * length (emit_items items ts)
  cost_items_le nil ts = omega arith
  cost_items_le (cons e items) ts =
      omega (arith, cost_le e (emit_items items ts), cost_items_le items ts)

-- The first token does not close a list.
abbrev Opens : List String → Type 0
Opens [] = ⊥
Opens (t ∷ ts) = (t == ")") ≡ false

clean-open : (t : String) → is_clean t ≡ true → ((t == "(") ≡ false) × ((t == ")") ≡ false)
clean-open t h = (differs "(" refl, differs ")" refl)
  where
    differs : (u : String) → is_clean u ≡ false → (t == u) ≡ false
    differs u hu = elim (Bool-cases (t == u)) [
      | inl same ↦ absurd (ground (arith, ap is_clean ((==_iff t u).0 same)))
      | inr other ↦ other
    ]

depth_ok : (depth : ℕ) → depth ≤ max_parse_depth → ltb max_parse_depth depth ≡ false
depth_ok depth h = ground (arith)

parse_word :
    (t : String) (f depth : ℕ) (ts : List String)
    → is_clean t ≡ true
    → depth ≤ max_parse_depth
    → parse_expr (suc f) depth (t ∷ ts) ≡ ok (leaf t) ts
unfolding parse_expr parse_items
parse_word t f depth ts h d =
    let (no_open, no_close) = clean-open t h in rw (depth_ok depth d, no_open, no_close) refl

name-clean : (t : String) → IsName t → (is_clean t ≡ true) × (leaf t ≡ symbol t)
unfolding leaf
name-clean String.[] p = absurd p
name-clean (String.◌∷◌ c t) p = (p.0, rw (p.1) refl)

==_open_close : ("(" == ")") ≡ false
unfolding ◌==◌
==_open_close = refl

parse_items_step :
    (ts rest : List String) (e : SExpr) (f depth : ℕ)
    → Opens ts
    → parse_expr f (suc depth) ts ≡ ok e rest
    → parse_items (suc f) depth ts ≡ then_cons e (parse_items f depth rest)
unfolding parse_expr parse_items
parse_items_step [] rest e f depth o h = absurd o
parse_items_step (t ∷ ts) rest e f depth o h = rw (parse_items, o, h) refl

emit-Opens : (e : SExpr) (ts : List String) → IsPrintable e → Opens (emit e ts)
unfolding append_text is_space
emit-Opens (symbol name) ts p = (clean-open name (name-clean name p).0).1
emit-Opens (var name) ts p = (clean-open (append_text "$" name) p).1
emit-Opens (list items) ts p = ==_open_close

mutual
  unfolding parse_expr parse_items append_text leaf is_space

  parse_printed :
      (e : SExpr) (f depth : ℕ) (ts : List String)
      → IsPrintable e
      → cost e ≤ f
      → nesting e + depth ≤ max_parse_depth
      → parse_expr f depth (emit e ts) ≡ ok e ts
  parse_printed (symbol name) zero depth ts p c n = absurd (omega arith)
  parse_printed (var name) zero depth ts p c n = absurd (omega arith)
  parse_printed (list items) zero depth ts p c n = absurd (omega arith)
  parse_printed (symbol name) (suc f) depth ts p c n =
      let (clean, reads) = name-clean name p in
      parse_word name f depth ts clean (omega arith) ∙ ap (λ e. ok e ts) reads
  parse_printed (var name) (suc f) depth ts p c n =
      parse_word (append_text "$" name) f depth ts p (omega arith)
  parse_printed (list items) (suc f) depth ts p c n =
      rw
        (
          depth_ok depth (omega arith),
          ==_refl "(",
          parse_items_printed items f depth ts p (omega arith) n,
        )
        refl

  parse_items_printed :
      (items : Items) (f depth : ℕ) (ts : List String)
      → ArePrintable items
      → cost_items items ≤ f
      → nesting_items items + depth ≤ max_parse_depth
      → parse_items f depth (emit_items items ts) ≡ ok items ts
  parse_items_printed nil zero depth ts p c n = absurd (omega arith)
  parse_items_printed (cons e items) zero depth ts p c n = absurd (omega arith)
  parse_items_printed nil (suc f) depth ts p c n = rw (==_refl ")", parse_items) refl
  parse_items_printed (cons e items) (suc f) depth ts p c n =
      let more = emit_items items ts in
      parse_items_step (emit e more) more e f depth (emit-Opens e more p.0)
        (parse_printed e f (suc depth) more p.0 (omega arith) (omega arith))
      ∙ ap (then_cons e) (parse_items_printed items f depth ts p.1 (omega arith) (omega arith))

-- Reading what `serialize` prints gives the expression back, with no token left, when its symbols
-- and variables print as one token each and its lists nest at most 512 deep.
pub parse_sexpr-serialize :
    (e : SExpr) → IsPrintable e → nesting e ≤ max_parse_depth → parse_sexpr (serialize e) ≡ ok e []
unfolding parse_sexpr
parse_sexpr-serialize e p n = rw (tokens) (
    parse_printed e (2 * length (emit e []) + 1) 0 [] p (omega (arith, cost_le e [])) (omega arith))
  where
    tokens : tokenize (serialize e) ≡ emit e []
    tokens =
        ap tokenize (sym (append_text-nil (serialize e)))
        ∙ tokenize_printed e "" p end-AtBoundary
        ∙ ap (emit e) tokenize_nil

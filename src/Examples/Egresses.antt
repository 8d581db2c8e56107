-- ===== src/Examples/Egresses.antt =====
-- Concrete inputs for the theorems on ts/src/vendor-cache.ts.
use mathlib.Core.List.{Memᴰ}
use mathlib.Core.List.Memᴰ
use mathlib.Core.Option.{some-injective}
use hellgraph.Masking.Leaves.{leaf_at}
use hellgraph.Masking.Wrapping.{IsFaithful}
use hellgraph.Masking.Payloads.{IsUsable, MaskedAs, covers}
use hellgraph.Base.{
  ℕ, ◌≡◌, ◌≢◌, refl, sym, subst, inl, inr, String, true, false, none, some, List, [], ◌∷◌, ◌++◌,
  ◌==◌,
}
use hellgraph.Base.Sets.{has, add_all, add_new}
use hellgraph.Dict
use hellgraph.Lifecycle.{
  served, vendor_materialize, is_delete_trigger, can_transition, apply_transition,
}
use hellgraph.Policy.Context.{Value}
use hellgraph.Policy.Decisions.{deny, decide, applicable, applies, resolve}
use hellgraph.Governor.{Governor, transition, is_vendor_trigger, apply_gated}
use hellgraph.ObjectStore.{CatalogEntry, ok}
use hellgraph.ObjectStore.Calls.{get, first_entry}
use hellgraph.Masking.{
  Cipher, apply_mask, apply_egress_obligations, masked_paths, path_of, starts_with, drop_chars,
  mask_from, path_keys, without_root, is_forbidden, read_keys, is_masked, unwrap, set_keys,
  put_field,
}
use hellgraph.Policy.Context.{get_path, walk, split_dots}
use hellgraph.Policy.Conditions.{eval_condition, eval_every, test_attr}
use hellgraph.VendorCache.{Vendors, MaterializeOptions, upload_file, payload_for, VendorHandle}
use hellgraph.VendorCache.Calls.{Cache, push, gc}
use hellgraph.VendorCache.Records.{push-governor}
use hellgraph.VendorCache.Rounds.{live}
use hellgraph.VendorCache.Collection.{gc_lem}
use hellgraph.VendorCache.Payloads.{after_push, push_guarded, push_masked}
use hellgraph.Examples.Vaults.{bytes, backend, stored}
use hellgraph.Examples.Masks.{cipher, cipher-IsFaithful, usable, payload, encode, decode}

abbrev secret : CatalogEntry
secret = record stored { content_hash = "abc"; state = served; sensitive_fields = "$.name" ∷ [] }

abbrev vendors : Vendors
vendors = record {
  clients = "gemini" ∷ [];
  answer = λ before r. some "file-1";
  residencies = ("gemini", "EU" ∷ []) ∷ [];
  parse_json = λ s. some payload;
  print_json = λ w. "masked";
}

abbrev cache : Cache bytes backend vendors (some cipher)
cache = record {
  store = record { catalog = ("doc", secret) ∷ []; blobs = ("abc", "abc") ∷ [] };
  governor = record { policy = []; audit = record { max_entries = 10; log = [] } };
  handles = [];
  sent = [];
}

abbrev opts : MaterializeOptions
opts = record { opt_in = true; ttl_ms = 60; now = some 5 }

abbrev after : Cache bytes backend vendors (some cipher)
after =
    after_push bytes backend vendors (some cipher) cache "doc" "gemini" vendor_materialize opts 5

sent : after.sent ≡ upload_file "gemini" "masked" "text/plain" ∷ []
unfolding push get Dict.get ◌==◌ has decide applicable applies resolve eval_condition eval_every
    test_attr get_path walk first_entry payload_for encode decode add_all add_new
    apply_egress_obligations masked_paths path_of starts_with drop_chars apply_mask mask_from
    path_keys without_root is_forbidden split_dots read_keys is_masked unwrap set_keys put_field
    transition is_delete_trigger is_vendor_trigger apply_gated can_transition apply_transition
sent = refl

push_guarded_example :
    (e : CatalogEntry) × (text : String) × (Dict.get cache.store.catalog "doc" ≡ some e)
    × (has vendors.clients "gemini" ≡ true)
    × (opts.opt_in ≡ true)
    × ((rs : List String)
        → e.residency ≢ ""
        → Dict.get vendors.residencies "gemini" ≡ some rs
        → Memᴰ e.residency rs)
    × (after.sent ≡ [] ++ upload_file "gemini" text e.mime ∷ [])
push_guarded_example =
    push_guarded bytes backend vendors (some cipher) cache "doc" "gemini" vendor_materialize opts 5
      (λ e. cc sent)

IsUsable-payload :
    (value : Value) (p : String)
    → some payload ≡ some value
    → Memᴰ p ("$.name" ∷ [])
    → IsUsable value p
IsUsable-payload value p parsed m = elim (Memᴰ.cases_cons m) [
  | inl e ↦
      subst (λ (x : String). IsUsable value x) (sym e)
        (subst (λ (x : Value). IsUsable x "$.name") (some-injective payload value parsed) usable)
  | inr t ↦ absurd (Memᴰ.not-nil t)
]

push_masked_example :
    (k : Cipher) × (content : String) × (e' : CatalogEntry) × (value : Value) × (w : Value) × (some
        cipher
      ≡ some k)
    × (get bytes backend cache.store "doc" ≡ ok (some (content, e')))
    × (some payload ≡ some value)
    × ((q : List String)
        → covers ("$.name" ∷ []) q ≡ true
        → MaskedAs k (leaf_at value q) (leaf_at w q))
    × ((q : List String) → covers ("$.name" ∷ []) q ≡ false → leaf_at w q ≡ leaf_at value q)
    × (after.sent ≡ [] ++ upload_file "gemini" (vendors.print_json w) "text/plain" ∷ [])
unfolding Dict.get ◌==◌ first_entry
push_masked_example =
    push_masked bytes backend vendors (some cipher) cache "doc" "gemini" vendor_materialize opts 5
      secret "$.name" refl (Memᴰ.head refl) (λ e. cc sent)
      (λ k e. subst IsFaithful (some-injective cipher k e) cipher-IsFaithful)
      (λ content e' value p got parsed m. IsUsable-payload value p parsed m)

-- A governor whose policy denies everything.
abbrev strict : Governor
strict = record {
  policy =
      record { id = "none"; action = none; effect = deny; when = none; obligations = none } ∷ [];
  audit = cache.governor.audit;
}

push-governor_example :
    (push bytes backend vendors
      (some cipher)
      (record cache { governor = strict })
      "doc"
      "gemini"
      vendor_materialize
      opts
      5).1.sent
    ≡ (push bytes backend vendors
        (some cipher)
        cache
        "doc"
        "gemini"
        vendor_materialize
        opts
        5).1.sent
push-governor_example =
    push-governor bytes backend vendors (some cipher) cache "doc" "gemini" vendor_materialize opts 5
      strict

abbrev handle_until : ℕ → VendorHandle
handle_until t = record {
  object_id = "doc";
  vendor_name = "gemini";
  file_id = "file-1";
  materialized_at = 0;
  ttl_at = t;
}

abbrev with_handles : Cache bytes backend vendors (some cipher)
with_handles = record cache { handles = ("a", handle_until 5) ∷ ("b", handle_until 100) ∷ [] }

gc_lem_example :
    (count : ℕ) × ((gc bytes backend vendors (some cipher) with_handles 10 10).0 ≡ some count)
    × ((k : String)
        → Dict.get (gc bytes backend vendors (some cipher) with_handles 10 10).1.handles k
          ≡ live 10 (Dict.get with_handles.handles k))
unfolding Dict.get ◌==◌
gc_lem_example =
    gc_lem bytes backend vendors (some cipher) 10 10 with_handles (λ before r. ("file-1", refl))
      (refl, (refl, tt)) ((secret, refl), ((secret, refl), tt))

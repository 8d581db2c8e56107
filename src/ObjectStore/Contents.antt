-- ===== src/ObjectStore/Contents.antt =====
-- ts/src/object-store.ts: the store as a map from ids to texts.
use hellgraph.Base.{
  ◌⊎◌, ℕ, ◌+◌, String, Bool, true, false, Option, none, some, List, [], ◌∷◌, ◌≡◌, refl, sym, ap,
  ◌∙◌, subst, ◌==◌, ==_iff, ==_refl, if◌then◌else◌, Bool-cases, inl, inr, All,
}
use hellgraph.Dict
use hellgraph.Dict.{Dict}
use hellgraph.Lifecycle.{ContentState}
use hellgraph.Codex.{Manifest, manifest, Syndrome, syndrome, positive}
use hellgraph.Codex.Changes.{syndrome-positive}
use hellgraph.ObjectStore.{Bytes, digest, CatalogEntry, ok, ObjectBackend}
use hellgraph.ObjectStore.Calls.{first_entry, next_entry, get, verify, check_bytes}
use hellgraph.ObjectStore.Backends.{KeepsBlobs}
use hellgraph.ObjectStore.Sessions.{
  Call, ingest_call, version_call, state_call, Texts, write_first, write_next, write, write_all,
  OfText, Store, call, call_all, get_absent, get_present, verify_at, ingest_old, ingest_new,
  version_old, version_new, state_old, state_new,
}

module _ (b : Bytes) (backend : ObjectBackend b.Buffer) where
  open b use {Buffer, to_bytes, to_text, sha256}
  open backend use {Blobs, put_blob, get_blob}

  module _ (keeps : KeepsBlobs backend) (Used : String → Type 0)
      (reads_back : (c : String) → Used c → to_text (to_bytes c) ≡ c)
      (no_collision : (c d : String)
        → Used c
        → Used d
        → digest b c ≡ digest b d
        → to_bytes c ≡ to_bytes d) where
    -- The entry of an id stands for the text and the count of its writes.
    abbrev Holds : Blobs → Option CatalogEntry → Option (String × ℕ) → Type 0
    Holds m none none = Unit
    Holds m none (some _) = ⊥
    Holds m (some e) none = ⊥
    Holds m (some e) (some (c, n)) =
        Used c
        × (e.version ≡ n)
        × (e.content_hash ≡ digest b c)
        × (get_blob m (digest b c) ≡ some (to_bytes c))
        × (e.codex ≡ manifest (digest b) c e.codex.division)

    abbrev Implements : Store b backend → Texts → Type 0
    Implements s m = (id : String) → Holds s.blobs (Dict.get s.catalog id) (Dict.get m id)

    -- Storing the bytes of another text keeps what is held.
    put-Holds :
        (m : Blobs) (d : String) (e : Option CatalogEntry) (o : Option (String × ℕ))
        → Used d
        → Holds m e o
        → Holds (put_blob m (digest b d) (to_bytes d)) e o
    put-Holds m d none none u h = tt
    put-Holds m d none (some _) u h = h
    put-Holds m d (some e) none u h = h
    put-Holds m d (some e) (some (c, n)) u (uc, hv, hh, hb, hm) =
        (uc, hv, hh, keeps m (digest b d) (to_bytes d) (digest b c) ∙ either, hm)
      where
        either :
            (if digest b d == digest b c then some (to_bytes d) else get_blob m (digest b c))
            ≡ some (to_bytes c)
        either = elim (Bool-cases (digest b d == digest b c)) [
          | inl same ↦ rw same (ap some (no_collision d c u uc ((==_iff _ _).0 same)))
          | inr other ↦ rw other hb
        ]

    stored :
        (m : Blobs) (c : String)
        → get_blob (put_blob m (digest b c) (to_bytes c)) (digest b c) ≡ some (to_bytes c)
    stored m c = keeps m (digest b c) (to_bytes c) (digest b c) ∙ rw (==_refl (digest b c)) refl

    -- An entry and a text written under one id.
    put_both :
        (s : Store b backend) (m : Texts) (id c : String) (n : ℕ) (e : CatalogEntry)
        → Used c
        → e.version ≡ n
        → e.content_hash ≡ digest b c
        → e.codex ≡ manifest (digest b) c e.codex.division
        → Implements s m
        → Implements
            (record s {
              catalog = Dict.put s.catalog id e;
              blobs = put_blob s.blobs (digest b c) (to_bytes c);
            })
            (Dict.put m id (c, n))
    put_both s m id c n e u hv hh hm i j =
        subst (λ (x : Option CatalogEntry). Holds blobs x (Dict.get (Dict.put m id (c, n)) j))
          (sym (Dict.get-put s.catalog id e j))
          (subst
            (λ (o : Option (String × ℕ)).
              Holds blobs (if id == j then some e else Dict.get s.catalog j) o)
            (sym (Dict.get-put m id (c, n) j)) (either (id == j)))
      where
        blobs : Blobs
        blobs = put_blob s.blobs (digest b c) (to_bytes c)

        either :
            (t : Bool)
            → Holds blobs
                (if t then some e else Dict.get s.catalog j)
                (if t then some (c, n) else Dict.get m j)
        either true = (u, hv, hh, stored s.blobs c, hm)
        either false = put-Holds s.blobs c (Dict.get s.catalog j) (Dict.get m j) u (i j)

    both_at :
        (s : Store b backend) (m : Texts) (id : String)
        → Holds s.blobs (Dict.get s.catalog id) (Dict.get m id)
        → ((Dict.get s.catalog id ≡ none) × (Dict.get m id ≡ none))
          ⊎ ((e : CatalogEntry) × (o : String × ℕ) × (Dict.get s.catalog id ≡ some e)
              × (Dict.get m id ≡ some o)
              × Holds s.blobs (some e) (some o))
    both_at s m id = split (Dict.get s.catalog id) (Dict.get m id)
      where
        split :
            (x : Option CatalogEntry) (y : Option (String × ℕ))
            → Holds s.blobs x y
            → ((x ≡ none) × (y ≡ none))
              ⊎ ((e : CatalogEntry) × (o : String × ℕ) × (x ≡ some e)
                  × (y ≡ some o)
                  × Holds s.blobs (some e) (some o))
        split none none h = inl (refl, refl)
        split none (some o) h = absurd h
        split (some e) none h = absurd h
        split (some e) (some o) h = inr (e, o, refl, refl, h)

    empty : (m : Blobs) → Implements (record { catalog = []; blobs = m }) []
    unfolding Dict.get
    empty m id = tt

    -- A change of state is no change of the text.
    in_state :
        (s : Store b backend) (m : Texts) (id : String) (st : ContentState) (e : CatalogEntry)
        (o : String × ℕ)
        → Dict.get m id ≡ some o
        → Holds s.blobs (some e) (some o)
        → Implements s m
        → Implements (record s { catalog = Dict.put s.catalog id (record e { state = st }) }) m
    in_state s m id st e o written held i j =
        subst (λ (x : Option CatalogEntry). Holds s.blobs x (Dict.get m j))
          (sym (Dict.get-put s.catalog id (record e { state = st }) j))
          (either (Bool-cases (id == j)))
      where
        either :
            ((id == j) ≡ true) ⊎ ((id == j) ≡ false)
            → Holds s.blobs
                (if id == j then some (record e { state = st }) else Dict.get s.catalog j)
                (Dict.get m j)
        either (inl same) = rw same (
            subst (λ (x : Option (String × ℕ)). Holds s.blobs (some (record e { state = st })) x)
              (sym (subst (λ (k : String). Dict.get m k ≡ some o) ((==_iff id j).0 same) written))
              held)
        either (inr other) = rw other (i j)

    transport :
        (x y : Store b backend) (p q : Texts) → x ≡ y → p ≡ q → Implements y q → Implements x p
    transport x y p q e f i =
        subst (λ (z : Store b backend). Implements z p) (sym e)
          (subst (λ (z : Texts). Implements y z) (sym f) i)

    call-Implements :
        (s : Store b backend) (m : Texts) (c : Call)
        → OfText Used c
        → Implements s m
        → Implements (call b backend s c) (write m c)
    unfolding write first_entry next_entry manifest
    call-Implements s m (ingest_call id c meta now) u i = elim (both_at s m id (i id)) [
      | inl (absent, unwritten) ↦
          transport _ _ _ (Dict.put m id (c, 1)) (ingest_new b backend s id c meta now absent)
            (ap (λ (o : Option (String × ℕ)). write_first m o id c) unwritten)
            (put_both s m id c 1 (first_entry b backend id c meta now) u refl refl refl i)
      | inr (e, o, there, written, held) ↦
          transport _ s _ m (ingest_old b backend s id c meta now e there)
            (ap (λ (x : Option (String × ℕ)). write_first m x id c) written) i
    ]
    call-Implements s m (version_call id c now) u i = elim (both_at s m id (i id)) [
      | inl (absent, unwritten) ↦
          transport _ s _ m (version_new b backend s id c now absent)
            (ap (λ (o : Option (String × ℕ)). write_next m o id c) unwritten) i
      | inr (e, (d, n), there, written, held) ↦
          transport _ _ _ (Dict.put m id (c, n + 1)) (version_old b backend s id c now e there)
            (ap (λ (x : Option (String × ℕ)). write_next m x id c) written)
            (put_both s m id c (n + 1) (next_entry b backend e c now) u (ap (◌+ 1) held.1) refl refl
              i)
    ]
    call-Implements s m (state_call id st) u i = elim (both_at s m id (i id)) [
      | inl (absent, unwritten) ↦ transport _ s m m (state_new b backend s id st absent) refl i
      | inr (e, o, there, written, held) ↦
          transport _ _ m m (state_old b backend s id st e there) refl
            (in_state s m id st e o written held i)
    ]

    call_all-Implements :
        (cs : List Call) (s : Store b backend) (m : Texts)
        → All (OfText Used) cs
        → Implements s m
        → Implements (call_all b backend s cs) (write_all m cs)
    unfolding call_all write_all
    call_all-Implements [] s m u i = i
    call_all-Implements (c ∷ cs) s m u i =
        call_all-Implements cs (call b backend s c) (write m c) u.1 (call-Implements s m c u.0 i)

    -- What a client reads under an id: nothing, or the text that it stands for, intact.
    abbrev pub Reads : Store b backend → String → Option (String × ℕ) → Type 0
    Reads s id none = get b backend s id ≡ ok none
    Reads s id (some (c, n)) =
        (e : CatalogEntry) × (get b backend s id ≡ ok (some (c, e)))
        × (e.version ≡ n)
        × (syn : Syndrome) × (verify b backend s id none ≡ ok syn)
        × (syn.verdict ≡ positive)

    right_bytes :
        (e : CatalogEntry) (c : String)
        → Used c
        → e.content_hash ≡ digest b c
        → check_bytes b backend e (some (to_bytes c)) ≡ ok (some (c, e))
    right_bytes e c u hh =
        let same : (sha256 (to_bytes c) == e.content_hash) ≡ true =
          (==_iff (sha256 (to_bytes c)) e.content_hash).1 (sym hh) in
        rw same (ap (λ (t : String). ok (some (t, e))) (reads_back c u))

    unmarked :
        (e : CatalogEntry) (c : String)
        → e.codex ≡ manifest (digest b) c e.codex.division
        → record e.codex { division = none } ≡ manifest (digest b) c none
    unfolding manifest
    unmarked e c hm = ap (λ (m : Manifest). record m { division = none }) hm

    Reads-at :
        (s : Store b backend) (id : String) (x : Option CatalogEntry) (o : Option (String × ℕ))
        → Dict.get s.catalog id ≡ x
        → Holds s.blobs x o
        → Reads s id o
    Reads-at s id none none there h = get_absent b backend s id there
    Reads-at s id none (some o) there h = absurd h
    Reads-at s id (some e) none there h = absurd h
    Reads-at s id (some e) (some (c, n)) there (u, hv, hh, hb, hm) =
        let at_hash = ap (get_blob s.blobs) hh ∙ hb in
        (
          e,
          get_present b backend s id e there
              ∙ ap (check_bytes b backend e) at_hash
              ∙ right_bytes e c u hh,
          hv,
          syndrome (digest b) e.codex c,
          verify_at b backend s id e (to_bytes c) there at_hash
              ∙ ap (λ (t : String). ok (syndrome (digest b) e.codex t)) (reads_back c u),
          (syndrome-positive (digest b) e.codex c).1 (unmarked e c hm),
        )

    -- The store is a map from ids to texts: after any sequence of ingests, new versions and changes
    -- of state from an empty catalog, `get` returns under each id the text last written there with
    -- the number of its writes as the version, and `verify` finds it intact; an ingest under an id
    -- that is taken and a new version of one that is not there write nothing. The backend keeps
    -- what is put, each text used reads back from its bytes, and no two of them with different
    -- bytes share a hash.
    pub call_all-Reads :
        (cs : List Call) (m : Blobs)
        → All (OfText Used) cs
        → (id : String)
        → Reads
            (call_all b backend (record { catalog = []; blobs = m }) cs)
            id
            (Dict.get (write_all [] cs) id)
    call_all-Reads cs m u id =
        let s = call_all b backend (record { catalog = []; blobs = m }) cs in
        Reads-at s id (Dict.get s.catalog id) (Dict.get (write_all [] cs) id) refl
          (call_all-Implements cs (record { catalog = []; blobs = m }) [] u (empty m) id)

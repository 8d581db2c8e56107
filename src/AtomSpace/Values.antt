-- ===== src/AtomSpace/Values.antt =====
-- The values that an atom carries and the handles that name it (ts/src/atomspace.ts). Numbers are
-- a parameter: `N` is the type of the source's floats, `show` its `String(x)`; so is the hash, whose
-- hex digest comes from Node's crypto module.
use Prim.Native.String.{◌++◌ as str_append, slice}
use hellgraph.Base.{String, List, [], ◌∷◌, map}

abbrev pub Handle : Type 0
Handle = String

pub record TruthValue (N : Type 0) : Type 0 where
  pub strength : N
  pub confidence : N

pub record AttentionValue (N : Type 0) : Type 0 where
  pub sti : N
  pub lti : N
  pub vlti : N

pub data Value (N : Type 0) : Type 0 where
  float : List N → Value N
  text : List String → Value N
  link : List Handle → Value N

-- `xs.join(separator)`
unfoldable pub join : String → List String → String
join sep [] = ""
join sep (x ∷ []) = x
join sep (x ∷ y ∷ xs) = str_append x (str_append sep (join sep (y ∷ xs)))

unfoldable pub serialize_value : {N : Type 0} → (N → String) → Value N → String
unfolding join
serialize_value show (float xs) = str_append "float\u{1}" (join "\0" (map show xs))
serialize_value show (text xs) = str_append "string\u{1}" (join "\0" xs)
serialize_value show (link xs) = str_append "link\u{1}" (join "\0" xs)

abbrev short : String → Handle
short digest = str_append "h:" (slice digest 0 24)

-- `nodeHandle`, over the SHA-1 digest in hex.
unfoldable pub node_handle : (String → String) → String → String → Handle
unfolding join
node_handle sha1_hex type name = short (sha1_hex (join "\0" ("N" ∷ type ∷ name ∷ [])))

unfoldable pub link_handle : (String → String) → String → List Handle → Handle
unfolding join
link_handle sha1_hex type outgoing =
    short (sha1_hex (str_append "L\0" (str_append type (str_append "\0" (join "\0" outgoing)))))

-- The key of `nodeIndex`.
unfoldable pub node_key : String → String → String
unfolding join
node_key type name = join "\0" (type ∷ name ∷ [])

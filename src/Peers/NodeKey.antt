-- ===== src/Peers/NodeKey.antt =====
-- lib/elysia-auth.ts: the pinned key with which a signed request from `<oracle>:<node>` is verified.
use maw_js.Prelude.{
  ◌≡◌, ◌↔◌, refl, Bool, true, false, ◌&&◌, Option, none, some, [], ◌∷◌, ◌++◌, Text, ◌===◌, ===_iff,
  ◌==◌, is_empty, trim, has_char, if◌then◌else◌, arith, Bool-cases, inl, inr, Memᴰ, head, tail,
}
use maw_js.Prelude.Dict.{Dict}
use maw_js.Peers.Store.{Peer, truthy}
use maw_js.Peers.Tofu.{key_of}

-- What follows the first colon.
unfoldable pub after_colon : Text → Option Text
after_colon [] = none
after_colon (c ∷ s) = if c == b':' then some s else after_colon s

abbrev pub is_node : Text → Option Text → Bool
is_node node none = false
is_node node (some n) = n === node

unfoldable pub first_key : (node : Text) → Dict Peer → Option Text
first_key node [] = none
first_key node ((_, p) ∷ rest) =
    if is_node node p.node && truthy p.pubkey then p.pubkey else first_key node rest

abbrev pub key_for_node : (node : Text) → Dict Peer → Option Text
key_for_node node peers = if is_empty node then none else first_key node peers

unfoldable pub lookup_cached_pubkey : (from : Text) → Dict Peer → Option Text
unfolding after_colon first_key trim
lookup_cached_pubkey from peers = elim (after_colon from) [
  | none ↦ none
  | some rest ↦ key_for_node (trim rest) peers
]

after_colon-append :
    (oracle rest : Text)
    → has_char b':' oracle ≡ false
    → after_colon (oracle ++ (b':' ∷ rest)) ≡ some rest
unfolding after_colon has_char
after_colon-append [] rest h = refl
after_colon-append (c ∷ s) rest h = ground (arith, after_colon-append s rest)

has_key : (x : Option Text) (k : Text) → key_of x ≡ some k → (x ≡ some k) × (truthy x ≡ true)
has_key none k h = cc
has_key (some s) k h = ground arith

truthy_key : (x : Option Text) → truthy x ≡ true → (k : Text) × (x ≡ some k) × (key_of x ≡ some k)
truthy_key none h = cc
truthy_key (some s) h = (s, refl, ground arith)

is_node_iff : (node : Text) (n : Option Text) → (is_node node n ≡ true) ↔ (n ≡ some node)
is_node_iff node none = (λ h. cc, λ h. cc)
is_node_iff node (some n) = ground (arith, ===_iff n node)

-- The entries for a node agree on its key, where they have one.
abbrev pub HasKey : (node k : Text) → Dict Peer → Type 0
HasKey node k peers =
    (e : Text × Peer) (k' : Text)
    → Memᴰ e peers
    → e.1.node ≡ some node
    → key_of e.1.pubkey ≡ some k'
    → k' ≡ k

first_key_lem :
    (node k : Text) (e : Text × Peer) (peers : Dict Peer)
    → Memᴰ e peers
    → e.1.node ≡ some node
    → key_of e.1.pubkey ≡ some k
    → HasKey node k peers
    → first_key node peers ≡ some k
unfolding first_key
first_key_lem node k e [] m n key same = elim m [ ]
first_key_lem node k _ ((a, p) ∷ rest) head n key same =
    let (value, set) = has_key p.pubkey k key in
    ground (arith, value, set, (is_node_iff node p.node).1 n)
first_key_lem node k e ((a, p) ∷ rest) (tail m) n key same =
    let rec = first_key_lem node k e rest m n key (λ e' k' m'. same e' k' (tail m')) in
    elim (Bool-cases (is_node node p.node && truthy p.pubkey)) [
      | inl hit ↦
          let at_node = (is_node_iff node p.node).0 (ground arith) in
          let (k', value, own) = truthy_key p.pubkey (ground arith) in
          let agree = same (a, p) k' head at_node own in ground (arith, hit, value, agree)
      | inr miss ↦ ground (arith, miss, rec)
    ]

-- Where an entry for a node has a key, and all entries for the node that have one have the same, the key for a
-- sender `<oracle>:<node>` is that key, for any oracle's name without a colon and any non-empty node's name
-- without spaces around it.
pub lookup_cached_pubkey_lem :
    (oracle node k : Text) (e : Text × Peer) (peers : Dict Peer)
    → has_char b':' oracle ≡ false
    → trim node ≡ node
    → is_empty node ≡ false
    → Memᴰ e peers
    → e.1.node ≡ some node
    → key_of e.1.pubkey ≡ some k
    → HasKey node k peers
    → lookup_cached_pubkey (oracle ++ (b':' ∷ node)) peers ≡ some k
unfolding lookup_cached_pubkey
lookup_cached_pubkey_lem oracle node k e peers colon trimmed full m n key same = ground (
  arith,
  after_colon-append oracle node colon,
  trimmed,
  full,
  first_key_lem node k e peers m n key same,
)

-- ===== src/Peers/Commands.antt =====
-- lib/peers/impl.ts: the commands that add, probe, remove and forget a peer. What `probePeer` found over
-- the network is an argument, and so is the protocol that `new URL` finds in a URL.
use maw_js.Prelude.{
  ℕ, Bool, false, not, ◌&&◌, ◌||◌, Option, none, some, [], ◌∷◌, Text, text, ◌===◌, ◌==◌, leb,
  is_empty, length, all, if◌then◌else◌, is_some,
}
use maw_js.Prelude.Dict.{lookup, insert, erase}
use maw_js.Peers.Store.{
  LastError, Identity, Peer, PeersDisk, load_peers, mutate_peers, read_unlocked, truthy,
}
use maw_js.Peers.Tofu.{
  TofuDecision, tofu_bootstrap, mismatch, evaluate_peer_identity, apply_tofu_decision, update_peer,
  ForgetOutcome, forget_peer_pubkey, cached_key,
}

abbrev pub is_alias_start : ℕ → Bool
is_alias_start c = (leb b'a' c && leb c b'z') || (leb b'0' c && leb c b'9')

-- `/^[a-z0-9][a-z0-9_-]{0,31}$/`
unfoldable pub is_valid_alias : Text → Bool
is_valid_alias [] = false
is_valid_alias (c ∷ rest) =
    is_alias_start c
    && all (λ x. is_alias_start x || x == b'_' || x == b'-') rest
    && leb (length rest) 31

abbrev pub is_valid_protocol : Option Text → Bool
is_valid_protocol none = false
is_valid_protocol (some protocol) = protocol === text "http:" || protocol === text "https:"

-- The nickname that a probe found: the key is missing, null, or a non-empty text.
pub data Nickname : Type 0 where
  undefined null : Nickname
  named : Text → Nickname

pub record Probe : Type 0 where
  pub node : Option Text
  pub nickname : Nickname
  pub pubkey : Option Text
  pub identity : Option Identity
  pub error : Option LastError

pub record AddOptions : Type 0 where
  pub alias : Text
  pub url : Text
  pub node : Option Text
  pub pubkey : Option Text
  pub identity : Option Identity
  pub mark_symmetric_check : Bool
  pub one_way : Option Bool

pub data AddOutcome : Type 0 where
  invalid_alias invalid_url : AddOutcome
  pubkey_mismatch : (alias cached observed : Text) → AddOutcome
  added : (overwrote : Bool) → AddOutcome

-- `a ?? b`
abbrev pub or_else {ℓ} : {A : Type ℓ} → Option A → Option A → Option A
or_else (some a) b = some a
or_else none b = b

abbrev pub given_name : Nickname → Option Text
given_name (named s) = some s
given_name null = none
given_name undefined = none

abbrev pub field_of {ℓ} : {A : Type ℓ} → (Peer → Option A) → Option Peer → Option A
field_of f none = none
field_of f (some p) = f p

-- The key of the new record: the one on file, or the first that was seen.
abbrev pub new_key : Option Peer → TofuDecision → (now : ℕ) → Option Text × Option ℕ
new_key existing decision now =
    if truthy (cached_key existing)
    then (cached_key existing, field_of (λ p. p.pubkey_first_seen) existing)
    else elim decision [ tofu_bootstrap _ observed ↦ (some observed, some now) | _ ↦ (none, none) ]

abbrev pub symmetric_check : AddOptions → Probe → Option Peer → (now : ℕ) → Option ℕ × Option Bool
symmetric_check opts probe existing now =
    if opts.mark_symmetric_check
    then (some now, or_else opts.one_way (some (is_some probe.error)))
    else elim (field_of (λ p. p.last_symmetric_check) existing) [
      | some t ↦ (some t, field_of (λ p. p.one_way) existing)
      | none ↦ (none, none)
    ]

unfoldable pub new_peer : AddOptions → Probe → Option Peer → TofuDecision → (now : ℕ) → Peer
new_peer opts probe existing decision now =
    let (key, first_seen) = new_key existing decision now in
    let (check, way) = symmetric_check opts probe existing now in
    record {
      url = opts.url;
      node = or_else opts.node probe.node;
      added_at = now;
      last_seen = if is_some probe.error then none else some now;
      last_error = probe.error;
      nickname = given_name probe.nickname;
      pubkey = key;
      pubkey_first_seen = first_seen;
      identity =
          or_else probe.identity (or_else opts.identity (field_of (λ p. p.identity) existing));
      one_way = way;
      last_symmetric_check = check;
    }

-- The key of the handshake and that of the probe, if they are there and differ.
abbrev pub handshake_mismatch : (opts probe : Option Text) → Option (Text × Text)
handshake_mismatch (some k) (some k') =
    if not (is_empty k) && not (is_empty k') && not (k === k') then some (k, k') else none
handshake_mismatch _ _ = none

-- The write: `mutatePeers` with the new record, then `applyTofuDecision`.
unfoldable pub commit_add :
    AddOptions → Probe → Option Peer → TofuDecision → (now : ℕ) → PeersDisk → PeersDisk × AddOutcome
unfolding mutate_peers read_unlocked new_peer apply_tofu_decision
commit_add opts probe existing decision now d =
    let peer = new_peer opts probe existing decision now in
    let written = mutate_peers (insert opts.alias peer) d in
    let after = apply_tofu_decision decision now written in
    (after.0, added (is_some (lookup opts.alias (read_unlocked d))))

-- What follows the decision: a refusal, or the write.
unfoldable pub after_decision :
    AddOptions → Probe → Option Peer → TofuDecision → (now : ℕ) → PeersDisk → PeersDisk × AddOutcome
unfolding commit_add
after_decision opts probe existing (mismatch alias cached observed) now d =
    (d, pubkey_mismatch alias cached observed)
after_decision opts probe existing decision now d = commit_add opts probe existing decision now d

-- `cmdAdd` from the result of the probe up to the decision.
unfoldable pub decide_add : AddOptions → Probe → Option Peer → TofuDecision
unfolding evaluate_peer_identity
decide_add opts probe existing =
    evaluate_peer_identity opts.alias existing (or_else opts.pubkey probe.pubkey)

-- The disk after the first part of `cmdAdd`: the alias and the url are checked, and the store is read, which can move a
-- corrupt one aside. The probe, between the two, leaves the disk as it is.
unfoldable pub start_add : AddOptions → (protocol : Option Text) → PeersDisk → PeersDisk
unfolding is_valid_alias load_peers
start_add opts protocol d =
    if is_valid_alias opts.alias && is_valid_protocol protocol then (load_peers d).1 else d

-- The rest of `cmdAdd`, where the store that was read is that of the disk `read`.
unfoldable pub finish_add :
    AddOptions
    → (protocol : Option Text) → Probe
    → (now : ℕ) → (read : PeersDisk) → PeersDisk
    → PeersDisk × AddOutcome
unfolding is_valid_alias load_peers lookup decide_add after_decision
finish_add opts protocol probe now read d =
    if not (is_valid_alias opts.alias)
    then (d, invalid_alias)
    else (if not (is_valid_protocol protocol)
        then (d, invalid_url)
        else let existing = lookup opts.alias (load_peers read).0 in
          elim (handshake_mismatch opts.pubkey probe.pubkey) [
            | some (k, k') ↦ (d, pubkey_mismatch opts.alias k k')
            | none ↦ after_decision opts probe existing (decide_add opts probe existing) now d
          ])

unfoldable pub cmd_add :
    AddOptions → (protocol : Option Text) → Probe → (now : ℕ) → PeersDisk → PeersDisk × AddOutcome
unfolding start_add finish_add
cmd_add opts protocol probe now d = finish_add opts protocol probe now d (start_add opts protocol d)

pub data ProbeOutcome : Type 0 where
  not_found : ProbeOutcome
  key_changed : (alias cached observed : Text) → ProbeOutcome
  probed : (ok : Bool) → ProbeOutcome

unfoldable pub refresh : Probe → (now : ℕ) → Peer → Peer
refresh probe now p = elim probe.error [
  | some e ↦ record p { last_error = some e }
  | none ↦ record p {
    last_error = none;
    last_seen = some now;
    node = if truthy probe.node then probe.node else p.node;
    nickname = elim probe.nickname [ named s ↦ some s | null ↦ none | undefined ↦ p.nickname ];
    identity = or_else probe.identity p.identity;
  }
]

unfoldable pub after_probe :
    (alias : Text) → Probe → TofuDecision → (now : ℕ) → PeersDisk → PeersDisk × ProbeOutcome
unfolding mutate_peers update_peer refresh apply_tofu_decision
after_probe alias probe (mismatch a cached observed) now d = (d, key_changed a cached observed)
after_probe alias probe decision now d =
    let refreshed = mutate_peers (update_peer alias (refresh probe now)) d in
    ((apply_tofu_decision decision now refreshed).0, probed (not (is_some probe.error)))

unfoldable pub cmd_probe : (alias : Text) → Probe → (now : ℕ) → PeersDisk → PeersDisk × ProbeOutcome
unfolding load_peers lookup evaluate_peer_identity after_probe
cmd_probe alias probe now d =
    let loaded = load_peers d in
    elim (lookup alias loaded.0) [
      | none ↦ (loaded.1, not_found)
      | some existing ↦
          let decision = evaluate_peer_identity alias (some existing) probe.pubkey in
          after_probe alias probe decision now loaded.1
    ]

unfoldable pub cmd_remove : (alias : Text) → PeersDisk → PeersDisk × Bool
unfolding mutate_peers read_unlocked erase lookup
cmd_remove alias d = (mutate_peers (erase alias) d, is_some (lookup alias (read_unlocked d)))

-- `none`: the alias is invalid, and an error is thrown.
unfoldable pub cmd_forget : (alias : Text) → PeersDisk → PeersDisk × Option ForgetOutcome
unfolding is_valid_alias forget_peer_pubkey
cmd_forget alias d =
    if is_valid_alias alias
    then (let r = forget_peer_pubkey alias d in (r.0, some r.1))
    else (d, none)

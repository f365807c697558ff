-- ===== src/Peers/Overlap.antt =====
-- lib/peers: when a key is refused, and two processes that add one alias at the same time.
use maw_js.Prelude.{
  ℕ, ◌≡◌, ◌≢◌, ◌↔◌, refl, ap, sym, ◌∙◌, ◌&&◌, Bool-cases, subst, true, false, Option, none, some,
  Text, ===_iff, is_empty, arith, Option-cases, inl, inr, is_some,
}
use maw_js.Prelude.Dict.{lookup, insert, lookup-insert_self}
use maw_js.Peers.Store.{Peer, PeersDisk, corrupt, load_peers, mutate_peers, read_unlocked}
use maw_js.Peers.Tofu.{
  tofu_bootstrap, mismatch, key_of, cached_key, evaluate_keys, evaluate_peer_identity,
  apply_tofu_decision, update_peer, stamp_key,
}
use maw_js.Peers.Commands.{
  AddOptions, Probe, pubkey_mismatch, added, or_else, new_peer, commit_add, after_decision,
  decide_add, start_add, finish_add, cmd_add, handshake_mismatch, is_valid_alias, is_valid_protocol,
}
use maw_js.Peers.Pins.{pinned, load_peers_read, load_peers_same}

evaluate_keys_mismatch :
    (alias c o : Text) (cached observed : Option Text)
    → (evaluate_keys alias cached observed ≡ mismatch alias c o)
      ↔ ((cached ≡ some c) × (observed ≡ some o) × (c ≢ o))
unfolding evaluate_keys
evaluate_keys_mismatch alias c o none none = (λ h. cc, λ h. cc (h.0))
evaluate_keys_mismatch alias c o none (some b) = (λ h. cc, λ h. cc (h.0))
evaluate_keys_mismatch alias c o (some a) none = (λ h. cc, λ h. cc (h.1))
evaluate_keys_mismatch alias c o (some a) (some b) = ground (arith, ===_iff a b)

-- A contact is a mismatch of the keys `c` and `o` exactly if the peer on file has the non-empty key `c`,
-- the contact shows the non-empty key `o`, and they differ.
pub mismatch_iff :
    (alias c o : Text) (peer : Option Peer) (observed : Option Text)
    → (evaluate_peer_identity alias peer observed ≡ mismatch alias c o)
      ↔ ((key_of (cached_key peer) ≡ some c) × (key_of observed ≡ some o) × (c ≢ o))
unfolding evaluate_peer_identity
mismatch_iff alias c o peer observed =
    evaluate_keys_mismatch alias c o (key_of (cached_key peer)) (key_of observed)

-- A call of `cmdAdd` that can come to a decision: the alias and the protocol are valid, and the key that is given and the
-- key that the probe finds do not disagree.
pub record IsSound (opts : AddOptions) (pr : Option Text) (p : Probe) : Type 0 where
  pub alias : is_valid_alias opts.alias ≡ true
  pub protocol : is_valid_protocol pr ≡ true
  pub keys : handshake_mismatch opts.pubkey p.pubkey ≡ none

finish_refused :
    (opts : AddOptions) (pr : Option Text) (p : Probe) (now : ℕ) (read d : PeersDisk) (k k' : Text)
    → IsSound opts pr p
    → key_of (or_else opts.pubkey p.pubkey) ≡ some k'
    → pinned opts.alias read ≡ some k
    → k ≢ k'
    → finish_add opts pr p now read d ≡ (d, pubkey_mismatch opts.alias k k')
unfolding finish_add decide_add after_decision
finish_refused opts pr p now read d k k' sound key h ne =
    let existing = lookup opts.alias (load_peers read).0 in
    let on_file : key_of (cached_key existing) ≡ some k = rw (load_peers_read read) h in
    let seen = or_else opts.pubkey p.pubkey in
    ground (
      arith,
      sound.alias,
      sound.protocol,
      sound.keys,
      (mismatch_iff opts.alias k k' existing seen).1 (on_file, key, ne),
    )

-- With a pinned key, `cmdAdd` with another key, given or found by the probe, writes nothing and reports the
-- mismatch, where the alias and the protocol are valid and the two sources of the key do not disagree.
pub cmd_add_refuses :
    (opts : AddOptions) (pr : Option Text) (p : Probe) (now : ℕ) (d : PeersDisk) (k k' : Text)
    → IsSound opts pr p
    → key_of (or_else opts.pubkey p.pubkey) ≡ some k'
    → pinned opts.alias d ≡ some k
    → k ≢ k'
    → cmd_add opts pr p now d ≡ (start_add opts pr d, pubkey_mismatch opts.alias k k')
unfolding cmd_add
cmd_add_refuses opts pr p now d k k' = finish_refused opts pr p now d (start_add opts pr d) k k'

key_of_not_empty : (x : Option Text) (k : Text) → key_of x ≡ some k → is_empty k ≡ false
key_of_not_empty none k h = cc
key_of_not_empty (some s) k h = ground arith

commit_first :
    (opts : AddOptions) (p : Probe) (now : ℕ) (d : PeersDisk) (k : Text)
    → is_empty k ≡ false
    → pinned opts.alias (commit_add opts p none (tofu_bootstrap opts.alias k) now d).0 ≡ some k
unfolding commit_add new_peer mutate_peers read_unlocked apply_tofu_decision update_peer
commit_first opts p now d k full =
    let peer = new_peer opts p none (tofu_bootstrap opts.alias k) now in
    let entries = insert opts.alias peer (read_unlocked d) in
    let stamped = stamp_key k now peer in
    ground (
      arith,
      full,
      lookup-insert_self opts.alias peer (read_unlocked d),
      lookup-insert_self opts.alias stamped entries,
    )

first_decision :
    (opts : AddOptions) (p : Probe) (k : Text)
    → key_of (or_else opts.pubkey p.pubkey) ≡ some k
    → decide_add opts p none ≡ tofu_bootstrap opts.alias k
unfolding decide_add evaluate_peer_identity evaluate_keys
first_decision opts p k key = ground (arith, key)

-- A first sight of `k` pins it, whatever the store has become since it was read.
finish_first :
    (opts : AddOptions) (pr : Option Text) (p : Probe) (now : ℕ) (read d : PeersDisk) (k : Text)
    → IsSound opts pr p
    → lookup opts.alias (read_unlocked read) ≡ none
    → key_of (or_else opts.pubkey p.pubkey) ≡ some k
    → finish_add opts pr p now read d ≡ commit_add opts p none (tofu_bootstrap opts.alias k) now d
unfolding finish_add after_decision
finish_first opts pr p now read d k sound none_yet key = ground (
  arith,
  sound.alias,
  sound.protocol,
  sound.keys,
  load_peers_read read,
  none_yet,
  first_decision opts p k key,
)

commit_outcome :
    (opts : AddOptions) (p : Probe) (now : ℕ) (d : PeersDisk) (k : Text)
    → (commit_add opts p none (tofu_bootstrap opts.alias k) now d).1
      ≡ added (is_some (lookup opts.alias (read_unlocked d)))
unfolding commit_add
commit_outcome opts p now d k = refl

finish_first_at :
    (a : Text) (opts : AddOptions) (pr : Option Text) (p : Probe) (now : ℕ) (read d : PeersDisk)
    (k : Text)
    → opts.alias ≡ a
    → IsSound opts pr p
    → lookup a (read_unlocked read) ≡ none
    → key_of (or_else opts.pubkey p.pubkey) ≡ some k
    → (pinned a (finish_add opts pr p now read d).0 ≡ some k)
      × ((finish_add opts pr p now read d).1 ≡ added (is_some (lookup a (read_unlocked d))))
finish_first_at a opts pr p now read d k e sound none_yet key =
    let written = finish_first opts pr p now read d k sound (rw e none_yet) key in
    let full = key_of_not_empty (or_else opts.pubkey p.pubkey) k key in
    subst
      (λ b.
        (pinned b (finish_add opts pr p now read d).0 ≡ some k)
        × ((finish_add opts pr p now read d).1 ≡ added (is_some (lookup b (read_unlocked d)))))
      e
      (
        ap (λ x. pinned opts.alias x.0) written ∙ commit_first opts p now d k full,
        ap (λ x. x.1) written ∙ commit_outcome opts p now d k,
      )

pinned_present :
    (alias k : Text) (d : PeersDisk)
    → pinned alias d ≡ some k
    → is_some (lookup alias (read_unlocked d)) ≡ true
pinned_present alias k d h = elim (Option-cases (lookup alias (read_unlocked d))) [
  | inl e ↦ ground (arith, e)
  | inr (x, e) ↦ ground (arith, e)
]

-- What starts a call leaves a store as it is that is not corrupt.
start_same :
    (opts : AddOptions) (pr : Option Text) (d : PeersDisk)
    → d.primary ≢ some corrupt
    → (read_unlocked (start_add opts pr d) ≡ read_unlocked d)
      × ((start_add opts pr d).primary ≡ d.primary)
unfolding start_add
start_same opts pr d intact =
    elim (Bool-cases (is_valid_alias opts.alias && is_valid_protocol pr)) [
      | inl ok ↦ rw (ok, start_add) (load_peers_same d intact)
      | inr bad ↦ rw (bad, start_add) (refl, refl)
    ]

-- Two calls of `cmdAdd` add the same new alias with keys `k` and `k'`, both can come to a decision, and the store is not
-- corrupt. Where both read the store before either writes, both report that the peer was added, the second that it
-- was there before, and the first key is replaced by the second, with no mismatch. If the second call starts when the
-- first has ended, it is refused instead.
pub overlapping_adds :
    (o o' : AddOptions) (pr pr' : Option Text) (p p' : Probe) (t t' : ℕ) (d : PeersDisk)
    (k k' : Text)
    → o'.alias ≡ o.alias
    → IsSound o pr p
    → IsSound o' pr' p'
    → d.primary ≢ some corrupt
    → lookup o.alias (read_unlocked d) ≡ none
    → key_of (or_else o.pubkey p.pubkey) ≡ some k
    → key_of (or_else o'.pubkey p'.pubkey) ≡ some k'
    → k ≢ k'
    → let one = start_add o pr d in
      let both = start_add o' pr' one in
      let first = finish_add o pr p t d both in
      let second = finish_add o' pr' p' t' one first.0 in
      (pinned o.alias first.0 ≡ some k)
      × (first.1 ≡ added false)
      × (pinned o.alias second.0 ≡ some k')
      × (second.1 ≡ added true)
      × ((cmd_add o' pr' p' t' first.0).1 ≡ pubkey_mismatch o.alias k k')
overlapping_adds o o' pr pr' p p' t t' d k k' same sound sound' intact none_yet key key' ne =
    let one = start_add o pr d in
    let both = start_add o' pr' one in
    let first = finish_add o pr p t d both in
    let (pin₁, out₁) = finish_first_at o.alias o pr p t d both k refl sound none_yet key in
    let (same_one, kept) = start_same o pr d intact in
    let missing : lookup o.alias (read_unlocked one) ≡ none =
      ap (lookup o.alias) same_one ∙ none_yet in
    let (same_both, _) = start_same o' pr' one (λ e. intact (sym kept ∙ e)) in
    let missing' : lookup o.alias (read_unlocked both) ≡ none =
      ap (lookup o.alias) same_both ∙ missing in
    let (pin₂, out₂) =
      finish_first_at o.alias o' pr' p' t' one first.0 k' same sound' missing key' in
    let refused =
      cmd_add_refuses o' pr' p' t' first.0 k k' sound' key'
        (subst (λ a. pinned a first.0 ≡ some k) (sym same) pin₁) ne in
    (
      pin₁,
      out₁ ∙ ap (λ x. added (is_some x)) missing',
      pin₂,
      rw (pinned_present o.alias k first.0 pin₁) at out₂,
      ap (λ x. x.1) refused ∙ ap (λ a. pubkey_mismatch a k k') same,
    )

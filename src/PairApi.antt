-- ===== src/PairApi.antt =====
-- api/pair.ts: the requests by which nodes pair, over the codes of PairCodes and the peers of Peers. The clock, random
-- bytes, and what a probe of the remote address gives are arguments of a request. The answers keep their status and
-- what they tell, not their wording; a route with the code `auto` is the automatic pairing.
pub mod Costs
pub mod Bounds
pub mod Overlap
mod Examples
use maw_js.Prelude.{
  ℕ, ◌+◌, ◌-◌, ◌*◌, Bool, true, false, not, ◌&&◌, ◌||◌, Option, none, some, List, [], ◌∷◌, Text,
  text, filter, ltb, if◌then◌else◌,
}
use maw_js.Prelude.Dict.{Dict, lookup as dict_lookup, insert, erase}
use maw_js.PairCodes.{
  Store, Reason, not_found, expired, LookupResult, found, failed, normalize, is_valid_shape, pretty,
  generate_code, register, lookup, consume,
}
use maw_js.Peers.Store.{Identity, PeersDisk}
use maw_js.Peers.Commands.{
  Probe, AddOptions, AddOutcome, invalid_alias, invalid_url, pubkey_mismatch, added, cmd_add,
}
use maw_js.Routing.{non_empty_text}

abbrev pub default_ttl_ms : ℕ
default_ttl_ms = 120000

abbrev pub hello_window_ms : ℕ
hello_window_ms = 60000

pub record PairResult : Type 0 where
  pub consumed_at : ℕ
  pub remote_node : Text
  pub remote_url : Text

-- The module's state, that of PairCodes, and the peers on disk.
pub record PairState : Type 0 where
  pub codes : Store
  pub results : Dict PairResult
  pub recent_hellos : Dict ℕ
  pub peers : PeersDisk

-- The body of an automatic pairing; a field of another type is absent.
pub record AutoBody : Type 0 where
  pub node : Option Text
  pub oracle : Option Text
  pub url : Option Text
  pub zid : Option Text
  pub pubkey : Option Text

pub data PairRequest : Type 0 where
  generate : (bytes : List ℕ) (ttl_ms expires : Option ℕ) → PairRequest
  probe : (code : Text) → PairRequest
  accept :
      (code : Text) (node url : Option Text) (protocol : Option Text) (remote : Probe) → PairRequest
  status : (code : Text) → PairRequest
  -- `recordHelloZid`, which the transport calls.
  hello : (zid : Text) → PairRequest
  auto : AutoBody → (protocol : Option Text) (remote : Probe) → PairRequest

pub data PairAnswer : Type 0 where
  generated : (code : Text) (expires_at ttl_ms : ℕ) → PairAnswer
  invalid_shape bad_request missing_fields no_recent_hello : PairAnswer
  refused : Reason → PairAnswer
  is_live : PairAnswer
  paired : PairAnswer
  consumed_by : (node url : Text) → PairAnswer
  not_consumed : PairAnswer
  noted : PairAnswer
  auto_paired : PairAnswer
  key_mismatch : PairAnswer
  add_failed : PairAnswer

abbrev pub status_of : PairAnswer → ℕ
status_of (generated _ _ _) = 201
status_of invalid_shape = 400
status_of bad_request = 400
status_of missing_fields = 400
status_of no_recent_hello = 403
status_of (refused not_found) = 404
status_of (refused _) = 410
status_of key_mismatch = 409
status_of add_failed = 400
status_of _ = 200

abbrev pub ttl_of : (ttl_ms expires : Option ℕ) → ℕ
ttl_of (some ttl) expires = ttl
ttl_of none (some seconds) = seconds * 1000
ttl_of none none = default_ttl_ms

unfoldable pub generate_pair :
    (now : ℕ) → List ℕ → (ttl_ms expires : Option ℕ) → PairState → PairState × PairAnswer
unfolding register generate_code pretty
generate_pair now bytes ttl_ms expires s =
    let ttl = ttl_of ttl_ms expires in
    let (entry, codes) = register now (generate_code bytes) ttl s.codes in
    (record s { codes = codes }, generated (pretty entry.code) entry.expires_at ttl)

abbrev pub probe_answer : LookupResult → PairAnswer
probe_answer (failed reason) = refused reason
probe_answer (found _) = is_live

unfoldable pub probe_pair : (now : ℕ) → (code : Text) → PairState → PairAnswer
unfolding is_valid_shape lookup
probe_pair now code s =
    if not (is_valid_shape code) then invalid_shape else probe_answer (lookup now code s.codes)

abbrev pub peer_to_add : (node url : Text) → AddOptions
peer_to_add node url = record {
  alias = node;
  url = url;
  node = some node;
  pubkey = none;
  identity = none;
  mark_symmetric_check = false;
  one_way = none;
}

-- What follows the consuming of a code. A peer that cannot be added is ignored.
abbrev pub after_consume :
    (now : ℕ)
    → (code node url : Text) → (protocol : Option Text) → Probe
    → PairState
    → LookupResult × Store
    → PairState × PairAnswer
after_consume now code node url protocol remote s (failed reason, codes) =
    (record s { codes = codes }, refused reason)
after_consume now code node url protocol remote s (found entry, codes) = (
  record s {
    codes = codes;
    peers = (cmd_add (peer_to_add node url) protocol remote now s.peers).0;
    results =
        insert (normalize code) (record { consumed_at = now; remote_node = node; remote_url = url })
          s.results;
  },
  paired,
)

abbrev pub accept_with :
    (now : ℕ)
    → (code : Text) → (node url : Option Text) → (protocol : Option Text) → Probe
    → PairState
    → PairState × PairAnswer
accept_with now code (some node) (some url) protocol remote s =
    after_consume now code node url protocol remote s (consume now code s.codes)
accept_with now code _ _ protocol remote s = (s, bad_request)

unfoldable pub accept_pair :
    (now : ℕ)
    → (code : Text) → (node url : Option Text) → (protocol : Option Text) → Probe
    → PairState
    → PairState × PairAnswer
unfolding is_valid_shape consume cmd_add normalize insert
accept_pair now code node url protocol remote s =
    if not (is_valid_shape code)
    then (s, invalid_shape)
    else accept_with now code (non_empty_text node) (non_empty_text url) protocol remote s

abbrev pub status_without_result : LookupResult → PairAnswer
status_without_result (failed not_found) = refused not_found
status_without_result (failed expired) = refused expired
status_without_result _ = not_consumed

-- The result of the code, when there is one, stands before the store.
abbrev pub status_answer : Option PairResult → LookupResult → PairAnswer
status_answer (some r) _ = consumed_by r.remote_node r.remote_url
status_answer none r = status_without_result r

unfoldable pub status_pair : (now : ℕ) → (code : Text) → PairState → PairAnswer
unfolding normalize lookup dict_lookup
status_pair now code s =
    status_answer (dict_lookup (normalize code) s.results) (lookup now (normalize code) s.codes)

abbrev pub is_fresh : (now : ℕ) → Text × ℕ → Bool
is_fresh now (_, at) = not (ltb at (now - hello_window_ms))

unfoldable pub record_hello_zid : (zid : Text) → (now : ℕ) → Dict ℕ → Dict ℕ
unfolding insert
record_hello_zid zid now hellos = filter (is_fresh now) (insert zid now hellos)

-- A hello at the time 0 counts as none.
abbrev pub is_recent : (now : ℕ) → Option ℕ → Bool
is_recent now none = false
is_recent now (some at) = ltb 0 at && not (ltb hello_window_ms (now - at))

abbrev pub identity_of : (oracle : Option Text) → (node : Text) → Option Identity
identity_of none node = none
identity_of (some oracle) node = some (record { oracle = oracle; node = node })

abbrev pub auto_options : (node url : Text) → AutoBody → AddOptions
auto_options node url b = record {
  alias = node;
  url = url;
  node = some node;
  pubkey = non_empty_text b.pubkey;
  identity = identity_of (non_empty_text b.oracle) node;
  mark_symmetric_check = true;
  one_way = none;
}

abbrev pub after_add : (zid : Text) → PairState → PeersDisk × AddOutcome → PairState × PairAnswer
after_add zid s (peers, pubkey_mismatch _ _ _) = (record s { peers = peers }, key_mismatch)
after_add zid s (peers, invalid_alias) = (record s { peers = peers }, add_failed)
after_add zid s (peers, invalid_url) = (record s { peers = peers }, add_failed)
after_add zid s (peers, added _) =
    (record s { peers = peers; recent_hellos = erase zid s.recent_hellos }, auto_paired)

-- The checks of an automatic pairing; `some` is the answer that ends it.
abbrev pub check_with : (now : ℕ) → (node url zid : Option Text) → PairState → Option PairAnswer
check_with now (some node) (some url) (some zid) s =
    if is_recent now (dict_lookup zid s.recent_hellos) then none else some no_recent_hello
check_with now _ _ _ s = some missing_fields

unfoldable pub auto_check : (now : ℕ) → AutoBody → PairState → Option PairAnswer
unfolding dict_lookup
auto_check now b s =
    check_with now (non_empty_text b.node) (non_empty_text b.url) (non_empty_text b.zid) s

-- The rest of an automatic pairing, which adds the peer and then takes the hello.
abbrev pub end_with :
    (now : ℕ)
    → AutoBody
    → (node url zid : Option Text) → (protocol : Option Text) → Probe
    → PairState
    → PairState × PairAnswer
end_with now b (some node) (some url) (some zid) protocol remote s =
    after_add zid s (cmd_add (auto_options node url b) protocol remote now s.peers)
end_with now b _ _ _ protocol remote s = (s, missing_fields)

unfoldable pub auto_end :
    (now : ℕ) → AutoBody → (protocol : Option Text) → Probe → PairState → PairState × PairAnswer
unfolding cmd_add erase
auto_end now b protocol remote s =
    end_with now b (non_empty_text b.node) (non_empty_text b.url) (non_empty_text b.zid) protocol
      remote s

abbrev pub after_check :
    PairState → Option PairAnswer → PairState × PairAnswer → PairState × PairAnswer
after_check s (some answer) rest = (s, answer)
after_check s none rest = rest

abbrev pub auto_with :
    (now : ℕ)
    → AutoBody
    → (node url zid : Option Text) → (protocol : Option Text) → Probe
    → PairState
    → PairState × PairAnswer
auto_with now b node url zid protocol remote s =
    after_check s (check_with now node url zid s) (end_with now b node url zid protocol remote s)

-- An automatic pairing during which no other request is handled, though the server can do so while the peer is probed.
unfoldable pub auto_pair :
    (now : ℕ) → AutoBody → (protocol : Option Text) → Probe → PairState → PairState × PairAnswer
unfolding auto_check auto_end
auto_pair now b protocol remote s =
    after_check s (auto_check now b s) (auto_end now b protocol remote s)

-- A request that is handled to its end before the next one.
unfoldable pub handle : (now : ℕ) → PairRequest → PairState → PairState × PairAnswer
unfolding generate_pair probe_pair accept_pair status_pair record_hello_zid auto_pair
handle now (generate bytes ttl_ms expires) s = generate_pair now bytes ttl_ms expires s
handle now (probe code) s = (s, probe_pair now code s)
handle now (accept code node url protocol remote) s =
    accept_pair now code node url protocol remote s
handle now (status code) s = (s, status_pair now code s)
handle now (hello zid) s =
    (record s { recent_hellos = record_hello_zid zid now s.recent_hellos }, noted)
handle now (auto b protocol remote) s = auto_pair now b protocol remote s

-- ===== src/Consent/Gate.antt =====
-- core/consent/gate.ts and core/consent/gate-plugin-install.ts: what a send or an install waits for.
-- Of a refusal the model keeps the exit code and the request that was made; the text printed to the
-- terminal is built from these.
use maw_js.Prelude.{
  ℕ, none, some, List, ◌++◌, Text, text, is_empty, take, drop, starts_with, length, ltb,
  if◌then◌else◌,
}
use maw_js.Disk.{hey, plugin_install, PendingRequest, Disk}
use maw_js.Consent.Store.{is_trusted}
use maw_js.Consent.Request.{ConsentRequest, PostOutcome, ConsentResult, requested, request_consent}

-- core/routing.ts: `ResolveResult`, with what the gate reads of it.
pub data Resolved : Type 0 where
  unresolved : Resolved
  local : (target : Text) → Resolved
  peer : (peer_url target node : Text) → Resolved
  self_node : (target : Text) → Resolved
  error : (reason : Text) → Resolved

pub data GateDecision : Type 0 where
  allow : GateDecision
  deny : (exit_code : ℕ) → ConsentResult → GateDecision

abbrev pub gate_reply : ConsentResult → GateDecision
gate_reply (requested id pin expires_at) = deny 2 (requested id pin expires_at)
gate_reply failure = deny 1 failure

abbrev pub summary_max : ℕ
summary_max = 120

abbrev pub summarize : (query message : Text) → Text
summarize query message =
    text "hey "
    ++ (query
        ++ (text ": \""
            ++ (take summary_max message
                ++ ((if ltb summary_max (length message) then text "…" else text "")
                    ++ text "\""))))

module _ (sha256 : Text → Text) (post : (peer_url : Text) → PendingRequest → PostOutcome) where
  -- `id` and `bytes` are the random values of `requestConsent`.
  unfoldable pub gate_request :
      ConsentRequest → (peer_url id : Text) → List ℕ → (now : ℕ) → Disk → Disk × GateDecision
  gate_request req peer_url id bytes now d =
      let (d', result) =
        request_consent sha256 req (if is_empty peer_url then none else some (post peer_url)) id
          bytes now d in
      (d', gate_reply result)

  unfoldable pub maybe_gate_consent :
      (my_node query message : Text)
      → Resolved
      → (id : Text) → (bytes : List ℕ) → (now : ℕ) → Disk
      → Disk × GateDecision
  unfolding gate_request
  maybe_gate_consent my_node query message (peer peer_url target node) id bytes now d =
      if is_empty node
      then (d, allow)
      else (if is_trusted d my_node node hey
          then (d, allow)
          else gate_request
              (record {
                from = my_node;
                to = node;
                action = hey;
                summary = summarize query message;
              })
              peer_url id bytes now d)
  maybe_gate_consent my_node query message _ id bytes now d = (d, allow)

-- `shortSha`; an absent digest is the empty text.
unfoldable pub short_sha : Text → Text
short_sha sha =
    if is_empty sha
    then text "<no sha>"
    else take 8 (if starts_with sha (text "sha256:") then drop 7 sha else sha)

pub record PluginInstall : Type 0 where
  pub my_node : Text
  pub peer_name : Text
  -- Empty if the peer did not say.
  pub peer_node : Text
  pub peer_url : Text
  pub plugin_name : Text
  pub plugin_version : Text
  pub plugin_sha256 : Text

abbrev pub peer_id : PluginInstall → Text
peer_id ctx = if is_empty ctx.peer_node then ctx.peer_name else ctx.peer_node

abbrev pub install_summary : PluginInstall → Text
install_summary ctx =
    text "plugin-install "
    ++ (ctx.plugin_name
        ++ (text "@"
            ++ (ctx.plugin_version
                ++ (text " from "
                    ++ (ctx.peer_name
                        ++ ((if is_empty ctx.peer_node
                              then text ""
                              else text " (" ++ (ctx.peer_node ++ text ")"))
                            ++ (text " sha256:" ++ (short_sha ctx.plugin_sha256 ++ text "…"))))))))

module _ (sha256 : Text → Text) (post : (peer_url : Text) → PendingRequest → PostOutcome) where
  unfoldable pub maybe_gate_plugin_install :
      PluginInstall → (id : Text) → List ℕ → (now : ℕ) → Disk → Disk × GateDecision
  unfolding gate_request
  maybe_gate_plugin_install ctx id bytes now d =
      if is_trusted d ctx.my_node (peer_id ctx) plugin_install
      then (d, allow)
      else gate_request sha256 post
          (record {
            from = ctx.my_node;
            to = peer_id ctx;
            action = plugin_install;
            summary = install_summary ctx;
          })
          ctx.peer_url id bytes now d

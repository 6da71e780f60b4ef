-- ===== src/Orchestrator/Notify.antt =====
-- pkg/workflow/orchestrator/notify.go: `NotifyEmitter`, which posts the ID of a snapshot to the webhook
-- of the emitter. HTTP and the JSON decoder are parameters; of an error its kind is kept.
use Prim.Native.Char.{code}
use Prim.Native.String
use Prim.Native.String.{◌∷◌}
use mathlib.Core.Bool.{true≢false}
use mathlib.Core.Sum.{inl-ne-inr}
use version_guard.Base.{
  if_else_inr, inr-injective, sym, ◌∙◌, ℕ, ◌≡◌, refl, ◌≤◌, ◌<◌, ◌≢◌, String, ◌&&◌, ◌||◌, Option,
  none, some, ltb, eqb, ◌==◌, eq_iff, if◌then◌else◌, ◌⊎◌, inl, inr, arith,
}

pub record NotifyEmitterInput : Type 0 where
  pub emitter_webhook_url : String
  pub snapshot_id : String

pub record NotifyEmitterResult : Type 0 where
  pub workflow_id : String
  pub run_id : String
  pub snapshot_id : String

pub data NotifyError : Type 0 where
  no_url no_answer bad_status : NotifyError

-- A response, with what is read of its body before an error.
pub record Reply : Type 0 where
  pub status : ℕ
  pub body : String

-- `strings.TrimRight(s, "/")`
unfoldable pub trim_slashes : String → String
trim_slashes String.[] = ""
trim_slashes (String.◌∷◌ c s) =
    let rest = trim_slashes s in if eqb (code c) b'/' && rest == "" then "" else String.◌∷◌ c rest

abbrev pub empty_result : NotifyEmitterResult
empty_result = record { workflow_id = ""; run_id = ""; snapshot_id = "" }

-- The answer of the emitter, with what the decoder leaves in the empty result, whether it fails or
-- not.
abbrev pub read_reply : (String → NotifyEmitterResult) → String → NotifyEmitterResult
read_reply decode body = if body == "" then empty_result else decode body

abbrev pub check_reply :
    (String → NotifyEmitterResult) → Option Reply → NotifyError ⊎ NotifyEmitterResult
check_reply decode none = inl no_answer
check_reply decode (some reply) =
    if ltb reply.status 200 || ltb 299 reply.status
    then inl bad_status
    else inr (read_reply decode reply.body)

-- `post` answers a request to a URL with the ID of a snapshot.
unfoldable pub notify_emitter :
    (String → String → Option Reply)
    → (String → NotifyEmitterResult)
    → NotifyEmitterInput
    → NotifyError ⊎ NotifyEmitterResult
unfolding trim_slashes
notify_emitter post decode input =
    if input.emitter_webhook_url == ""
    then inl no_url
    else check_reply decode (
        post (String.◌++◌ (trim_slashes input.emitter_webhook_url) "/trigger-act")
          input.snapshot_id)

-- The response to the request to this base URL, with a status of success.
abbrev IsNotified : (String → String → Option Reply) → NotifyEmitterInput → Reply → Type 0
IsNotified post input reply =
    (input.emitter_webhook_url ≢ "")
    × (post (String.◌++◌ (trim_slashes input.emitter_webhook_url) "/trigger-act") input.snapshot_id
        ≡ some reply)
    × (200 ≤ reply.status)
    × (reply.status < 300)

check_reply-inr :
    (decode : String → NotifyEmitterResult) (o : Option Reply) (result : NotifyEmitterResult)
    → check_reply decode o ≡ inr result
    → (reply : Reply) × (o ≡ some reply)
      × (200 ≤ reply.status)
      × (reply.status < 300)
      × (read_reply decode reply.body ≡ result)
check_reply-inr decode none result h = absurd (inl-ne-inr h)
check_reply-inr decode (some reply) result h =
    let p = if_else_inr (ltb reply.status 200 || ltb 299 reply.status) _ h in
    (reply, refl, ground (arith, p.0), ground (arith, p.0), inr-injective _ _ p.1)

-- A notification that succeeds was answered under the URL of its input with a status from 200 to
-- 299, and returns what that answer tells.
pub notify_emitter-IsNotified :
    (post : String → String → Option Reply) (decode : String → NotifyEmitterResult)
    (input : NotifyEmitterInput) (result : NotifyEmitterResult)
    → notify_emitter post decode input ≡ inr result
    → (reply : Reply) × IsNotified post input reply × (read_reply decode reply.body ≡ result)
unfolding notify_emitter
notify_emitter-IsNotified post decode input result h =
    let p = if_else_inr (input.emitter_webhook_url == "") _ h in
    let (reply, answered, low, high, same) = check_reply-inr decode _ result p.1 in
    (
      reply,
      (
        λ e. true≢false (sym ((eq_iff input.emitter_webhook_url "").1 e) ∙ p.0),
        answered,
        low,
        high,
      ),
      same,
    )

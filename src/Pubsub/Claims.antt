-- ===== src/Pubsub/Claims.antt =====
-- internal/pubsub/claims.go and `Connect` of client.go. A payload's JSON, `marshal` and `unmarshal`, is
-- a parameter; a broker holds the retained message of every topic, where the empty one is none.
pub mod Exclusive
use muro.Base.{
  ℕ, Bool, true, false, ◌&&◌, ◌||◌, not, List, [], ◌∷◌, ◌++◌, Option, none, some, Bytes, codes,
  bytes_eq, bytes_eq_iff, bytes_eq_refl, if◌then◌else◌, refl, sym, ap, ◌∙◌, ◌≡◌, ◌≢◌, Result, ok,
  err, ◌>>=◌, arith, Bool-cases, Option-cases,
}
use muro.Pubsub.Topics.{claim_topic, presence_topic, claim_topic-presence_topic}

-- `claimPayload`
pub record ClaimPayload : Type 0 where
  pub daemon_id : Bytes
  pub claimed_at : ℕ

-- the fields of `Client` that the operations read
pub record Client : Type 0 where
  pub topic_root : Bytes
  pub daemon_id : Bytes

-- what happens to a subscription: it times out, the broker refuses it, the retained message comes,
-- or none comes in time
pub data Subscription : Type 0 where
  timed_out : Subscription
  refused : Subscription
  retained : Bytes → Subscription
  silent : Subscription

-- what happens to a message: it times out, the broker refuses it, or it is stored
pub data Token : Type 0 where
  lost : Token
  rejected : Token
  stored : Token

pub data Error : Type 0 where
  lookup_failed : Error
  bad_claim : Error
  presence_unknown : Error
  claimed : Bytes → ℕ → Error
  publish_timed_out : Error
  publish_refused : Error

-- a retained message to a topic
pub record Message : Type 0 where
  pub topic : Bytes
  pub payload : Bytes

-- `currentRetained`; `none` is exists = false
unfoldable pub current_retained : Subscription → Result Error (Option Bytes)
current_retained timed_out = err lookup_failed
current_retained refused = err lookup_failed
current_retained (retained payload) = if bytes_eq payload [] then ok none else ok (some payload)
current_retained silent = ok none

-- `token.WaitTimeout` and `token.Error`
unfoldable pub sent : Token → Result Error (Unit {0})
sent lost = err publish_timed_out
sent rejected = err publish_refused
sent stored = ok tt

module _ (subscribe : Bytes → Subscription) where
  -- `daemonIsOnline`
  unfoldable pub daemon_is_online : Client → Bytes → Result Error Bool
  daemon_is_online c daemon_id =
      elim (current_retained (subscribe (presence_topic c.topic_root daemon_id))) [
        | err e ↦ err e
        | ok none ↦ ok false
        | ok (some payload) ↦ ok (bytes_eq payload (codes "online"))
      ]

  module _ (unmarshal : Bytes → Option ClaimPayload) where
    -- the test of an existing claim's owner
    unfoldable pub check_owner : Client → ClaimPayload → Result Error (Unit {0})
    check_owner c existing =
        if bytes_eq existing.daemon_id c.daemon_id
        then ok tt
        else elim (daemon_is_online c existing.daemon_id) [
          | err e ↦ err presence_unknown
          | ok true ↦ err (claimed existing.daemon_id existing.claimed_at)
          | ok false ↦ ok tt
        ]

    -- the part of `ClaimSandbox` before it publishes
    unfoldable pub check_claim : Client → Bytes → Bytes → Result Error (Unit {0})
    check_claim c namespace name =
        elim (current_retained (subscribe (claim_topic c.topic_root namespace name))) [
          | err e ↦ err lookup_failed
          | ok none ↦ ok tt
          | ok (some payload) ↦ elim (unmarshal payload) [
            | none ↦ err bad_claim
            | some existing ↦ check_owner c existing
          ]
        ]

    module _ (marshal : ClaimPayload → Bytes) (publish : Message → Token) where
      -- `ClaimSandbox` at the time `now`: what it publishes and what it returns
      unfoldable pub claim_sandbox :
          Client → Bytes → Bytes → ℕ → Option Message × Result Error (Unit {0})
      claim_sandbox c namespace name now = elim (check_claim c namespace name) [
        | err e ↦ (none, err e)
        | ok _ ↦
            let m : Message = record {
              topic = claim_topic c.topic_root namespace name;
              payload = marshal (record { daemon_id = c.daemon_id; claimed_at = now });
            } in
            (some m, sent (publish m))
      ]

-- `ReleaseClaim`
unfoldable pub release_claim :
    (Message → Token) → Client → Bytes → Bytes → Option Message × Result Error (Unit {0})
release_claim publish c namespace name =
    let m : Message = record { topic = claim_topic c.topic_root namespace name; payload = [] } in
    (some m, sent (publish m))

-- what `Connect` publishes once it is connected
unfoldable pub connect : (Message → Token) → Client → Option Message × Result Error (Unit {0})
connect publish c =
    let m : Message = record {
      topic = presence_topic c.topic_root c.daemon_id;
      payload = codes "online";
    } in
    (some m, sent (publish m))

-- the retained messages of a broker
abbrev pub Broker : Type 0
Broker = Bytes → Bytes

-- a broker that answers
abbrev pub answer : Broker → Bytes → Subscription
answer b topic = retained (b topic)

-- the broker after an operation whose message it stored
unfoldable pub deliver : Broker → Option Message → Broker
deliver b none = b
deliver b (some m) = λ topic. if bytes_eq m.topic topic then m.payload else b topic

-- ===== src/Pubsub/Tests.antt =====
-- Two daemons at one broker.
use muro.Base.{[], ◌∷◌, Option, none, some, Bytes, codes, bytes_eq, refl, ◌≡◌, ok, err, arith}
use muro.Pubsub.Claims.{
  ClaimPayload, Client, stored, claimed, sent, current_retained, check_claim, claim_sandbox,
  connect, Broker, answer, deliver,
}
use muro.Pubsub.Claims.Exclusive.{after_claim, claim_sandbox-claimed}

-- a payload as its time and its daemon's id
abbrev write_payload : ClaimPayload → Bytes
write_payload p = p.claimed_at ∷ p.daemon_id

abbrev read_payload : Bytes → Option ClaimPayload
read_payload [] = none
read_payload (t ∷ id) = some (record { daemon_id = id; claimed_at = t })

abbrev daemon : Bytes → Client
daemon id = record { topic_root = codes "muro"; daemon_id = id }

abbrev empty : Broker
empty topic = []

claim_sandbox-claimed_example :
    (claim_sandbox
        (answer (
          after_claim read_payload write_payload empty
            (daemon (codes "a"))
            (codes "n")
            (codes "x")
            5))
        read_payload
        write_payload
        (λ m. stored)
        (daemon (codes "b"))
        (codes "n")
        (codes "x")
        9
      ≡ (none, err (claimed (codes "a") 5)))
    × (check_claim
          (answer (
            after_claim read_payload write_payload empty
              (daemon (codes "a"))
              (codes "n")
              (codes "x")
              5))
          read_payload
          (daemon (codes "a"))
          (codes "n")
          (codes "x")
        ≡ ok tt)
unfolding claim_sandbox check_claim current_retained deliver connect bytes_eq sent
claim_sandbox-claimed_example =
    claim_sandbox-claimed read_payload write_payload (λ p. refl) (λ p e. absurd (cc)) empty
      (daemon (codes "a")) (daemon (codes "b")) (codes "n") (codes "x") 5 9 refl
      (λ e. absurd (ground arith)) refl

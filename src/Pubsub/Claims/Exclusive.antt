-- ===== src/Pubsub/Claims/Exclusive.antt =====
-- Who may claim a name: the decision of `ClaimSandbox`, and what it means for two daemons at one broker.
use muro.Base.{
  ℕ, true, false, [], Option, none, some, Bytes, codes, bytes_eq, bytes_eq_iff, bytes_eq_refl, refl,
  sym, ap, ◌∙◌, ◌≡◌, ◌≢◌, ok, err, Result-cases, arith, Bool-cases, Option-cases, ◌⊎◌, inl, inr,
  ◌↔◌,
}
use muro.Pubsub.Topics.{claim_topic, presence_topic, claim_topic-presence_topic}
use muro.Pubsub.Claims.{
  ClaimPayload, Client, Subscription, stored, Error, claimed, Message, current_retained,
  daemon_is_online, check_owner, check_claim, claim_sandbox, release_claim, connect, Broker, answer,
  deliver,
}

module _ (subscribe : Bytes → Subscription) (unmarshal : Bytes → Option ClaimPayload) where
  -- nobody else who is online holds the name
  abbrev pub Free : Client → Bytes → Bytes → Type 0
  Free c namespace name =
      let lookup = current_retained (subscribe (claim_topic c.topic_root namespace name)) in
      (lookup ≡ ok none)
      ⊎ ((payload : Bytes) × (existing : ClaimPayload) × (lookup ≡ ok (some payload))
          × (unmarshal payload ≡ some existing)
          × ((existing.daemon_id ≡ c.daemon_id)
              ⊎ (daemon_is_online subscribe c existing.daemon_id ≡ ok false)))

  check_owner_iff :
      (c : Client) (existing : ClaimPayload)
      → (check_owner subscribe unmarshal c existing ≡ ok tt) ↔ (
          (existing.daemon_id ≡ c.daemon_id)
          ⊎ (daemon_is_online subscribe c existing.daemon_id ≡ ok false))
  unfolding check_owner
  check_owner_iff c existing = ground (arith, bytes_eq_iff existing.daemon_id c.daemon_id)

  -- `ClaimSandbox` gets as far as publishing exactly when no claim is retained, or the retained one
  -- parses and is this daemon's own or of a daemon whose presence was looked up and is not "online".
  pub check_claim_iff :
      (c : Client) (namespace name : Bytes)
      → (check_claim subscribe unmarshal c namespace name ≡ ok tt) ↔ Free c namespace name
  unfolding check_claim
  check_claim_iff c namespace name =
      let lookup = current_retained (subscribe (claim_topic c.topic_root namespace name)) in
      (
        λ h. elim (Result-cases lookup) [
          | inr (x, e) ↦ absurd (ground arith)
          | inl (none, e) ↦ inl e
          | inl (some p, e) ↦ elim (Option-cases (unmarshal p)) [
            | inl q ↦ absurd (ground arith)
            | inr (x, q) ↦ inr (p, x, e, q, (check_owner_iff c x).0 (ground arith))
          ]
        ],
        λ f. elim f [
          | inl e ↦ ground arith
          | inr (p, x, e, q, o) ↦ ground (arith, (check_owner_iff c x).1 o)
        ],
      )

deliver_same : (b : Broker) (m : Message) → deliver b (some m) m.topic ≡ m.payload
unfolding deliver
deliver_same b m = rw (bytes_eq_refl m.topic) refl

deliver_other :
    (b : Broker) (m : Message) (topic : Bytes)
    → m.topic ≢ topic
    → deliver b (some m) topic ≡ b topic
unfolding deliver
deliver_other b m topic n = elim (Bool-cases (bytes_eq m.topic topic)) [
  | inl e ↦ absurd (n ((bytes_eq_iff m.topic topic).0 e))
  | inr e ↦ rw (e) refl
]

online_at :
    (b : Broker) (c : Client) (id : Bytes)
    → b (presence_topic c.topic_root id) ≡ codes "online"
    → daemon_is_online (answer b) c id ≡ ok true
unfolding daemon_is_online current_retained bytes_eq
online_at b c id h = rw (h, daemon_is_online) refl

-- the payload of a claim
abbrev pub claim_payload : Client → ℕ → ClaimPayload
claim_payload c now = record { daemon_id = c.daemon_id; claimed_at = now }

module _ (unmarshal : Bytes → Option ClaimPayload) (marshal : ClaimPayload → Bytes) where
  abbrev pub claim_message : Client → Bytes → Bytes → ℕ → Message
  claim_message c namespace name now = record {
    topic = claim_topic c.topic_root namespace name;
    payload = marshal (claim_payload c now);
  }

  module _ (b : Broker) (c : Client) (namespace name : Bytes) (now : ℕ) where
    claim_sandbox-refused :
        (e : Error)
        → check_claim (answer b) unmarshal c namespace name ≡ err e
        → claim_sandbox (answer b) unmarshal marshal (λ m. stored) c namespace name now
          ≡ (none, err e)
    unfolding claim_sandbox
    claim_sandbox-refused e h = rw (h, claim_sandbox) refl

    claim_sandbox-sent :
        (claim_sandbox (answer b) unmarshal marshal (λ m. stored) c namespace name now).1 ≡ ok tt
        → (claim_sandbox (answer b) unmarshal marshal (λ m. stored) c namespace name now).0
          ≡ some (claim_message c namespace name now)
    unfolding claim_sandbox
    claim_sandbox-sent h = elim (Result-cases (check_claim (answer b) unmarshal c namespace name)) [
      | inl (t, e) ↦ rw (e, claim_sandbox) refl
      | inr (x, e) ↦ absurd (ground arith)
    ]

  -- the broker after daemon `a` connected and claimed the name
  abbrev pub after_claim : Broker → Client → Bytes → Bytes → ℕ → Broker
  after_claim b a namespace name now =
      let b' = deliver b (connect (λ m. stored) a).0 in
      deliver b' (claim_sandbox (answer b') unmarshal marshal (λ m. stored) a namespace name now).0

module _ (unmarshal : Bytes → Option ClaimPayload) (marshal : ClaimPayload → Bytes)
    (unmarshal-marshal : (p : ClaimPayload) → unmarshal (marshal p) ≡ some p)
    (marshal-ne : (p : ClaimPayload) → marshal p ≢ []) where
  check_claim-held :
      (b : Broker) (c : Client) (namespace name : Bytes) (p : ClaimPayload)
      → b (claim_topic c.topic_root namespace name) ≡ marshal p
      → check_claim (answer b) unmarshal c namespace name ≡ check_owner (answer b) unmarshal c p
  unfolding check_claim current_retained
  check_claim-held b c namespace name p h = elim (Bool-cases (bytes_eq (marshal p) [])) [
    | inl e ↦ absurd (marshal-ne p ((bytes_eq_iff (marshal p) []).0 e))
    | inr e ↦ rw (h, check_claim, e, unmarshal-marshal) refl
  ]

  -- After a daemon connected and claimed a name with success, the claim of that name by another
  -- daemon with the same topic root and another id is refused, names the owner and its time, and
  -- publishes nothing, while the owner itself may claim the name again. This is for a broker that
  -- stores what is published and answers every subscription, and for payloads that are not empty
  -- and read back as they were written.
  pub claim_sandbox-claimed :
      (b : Broker) (a c : Client) (namespace name : Bytes) (now later : ℕ)
      → a.topic_root ≡ c.topic_root
      → a.daemon_id ≢ c.daemon_id
      → (claim_sandbox
          (answer (deliver b (connect (λ m. stored) a).0))
          unmarshal
          marshal
          (λ m. stored)
          a
          namespace
          name
          now).1
        ≡ ok tt
      → (claim_sandbox
            (answer (after_claim unmarshal marshal b a namespace name now))
            unmarshal
            marshal
            (λ m. stored)
            c
            namespace
            name
            later
          ≡ (none, err (claimed a.daemon_id now)))
        × (check_claim
              (answer (after_claim unmarshal marshal b a namespace name now))
              unmarshal
              a
              namespace
              name
            ≡ ok tt)
  unfolding connect check_owner
  claim_sandbox-claimed b a c namespace name now later r n h =
      let b' = deliver b (connect (λ m. stored) a).0 in
      let b'' = after_claim unmarshal marshal b a namespace name now in
      let m = claim_message unmarshal marshal a namespace name now in
      let presence : Message = record {
        topic = presence_topic a.topic_root a.daemon_id;
        payload = codes "online";
      } in
      let message = claim_sandbox-sent unmarshal marshal b' a namespace name now h in
      let held : b'' (claim_topic a.topic_root namespace name) ≡ marshal (claim_payload a now) =
        ap (λ o. deliver b' o m.topic) message ∙ deliver_same b' m in
      let online : b'' (presence_topic a.topic_root a.daemon_id) ≡ codes "online" =
        ap (λ o. deliver b' o presence.topic) message
        ∙ deliver_other b' m presence.topic
            (claim_topic-presence_topic a.topic_root namespace name a.daemon_id)
        ∙ deliver_same b presence in
      let held' = ap (λ root. b'' (claim_topic root namespace name)) (sym r) ∙ held in
      let online' =
        online_at b'' c a.daemon_id
          (ap (λ root. b'' (presence_topic root a.daemon_id)) (sym r) ∙ online) in
      (
        claim_sandbox-refused unmarshal marshal b'' c namespace name later (claimed a.daemon_id now)
            (check_claim-held b'' c namespace name (claim_payload a now) held'
              ∙ ground (arith, online', bytes_eq_iff a.daemon_id c.daemon_id)),
        check_claim-held b'' a namespace name (claim_payload a now) held
            ∙ ground (arith, bytes_eq_refl a.daemon_id),
      )

-- At a broker that stores what is published and answers every subscription, once a claim was
-- released, any daemon with the same topic root may claim the name.
pub release_claim_lem :
    (unmarshal : Bytes → Option ClaimPayload) (b : Broker) (a c : Client) (namespace name : Bytes)
    → a.topic_root ≡ c.topic_root
    → check_claim
        (answer (deliver b (release_claim (λ m. stored) a namespace name).0))
        unmarshal
        c
        namespace
        name
      ≡ ok tt
unfolding release_claim current_retained bytes_eq check_claim
release_claim_lem unmarshal b a c namespace name r =
    let m : Message = record { topic = claim_topic a.topic_root namespace name; payload = [] } in
    let empty : deliver b (some m) (claim_topic c.topic_root namespace name) ≡ [] =
      ap (λ root. deliver b (some m) (claim_topic root namespace name)) (sym r)
      ∙ deliver_same b m in
    rw (empty, check_claim) refl

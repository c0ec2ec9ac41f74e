-- ===== src/Pubsub/Topics.antt =====
-- internal/pubsub/topics.go and `presenceTopic` of client.go.
use muro.Base.{
  true, false, ◌∷◌, ◌++◌, some, Bytes, codes, contains_byte, cut, cut-append, trim_prefix,
  trim_prefix-append, refl, sym, ap, ◌∙◌, ◌≡◌, ◌≢◌, append_assoc, has_prefix, arith,
}

abbrev pub slash : Bytes
slash = codes "/"

-- `StatusTopic`
abbrev pub status_topic : Bytes → Bytes → Bytes → Bytes
status_topic root namespace name =
    root ++ (slash ++ (namespace ++ (slash ++ (name ++ codes "/status"))))

-- `NetDeniedTopic`
abbrev pub net_denied_topic : Bytes → Bytes → Bytes → Bytes
net_denied_topic root namespace name =
    root ++ (slash ++ (namespace ++ (slash ++ (name ++ codes "/net-denied"))))

-- `InboxTopic`
abbrev pub inbox_topic : Bytes → Bytes → Bytes → Bytes
inbox_topic root namespace name =
    root ++ (slash ++ (namespace ++ (slash ++ (name ++ codes "/inbox"))))

-- `BroadcastTopic`
abbrev pub broadcast_topic : Bytes → Bytes → Bytes → Bytes
broadcast_topic root namespace topic =
    root ++ (slash ++ (namespace ++ (codes "/broadcast/" ++ topic)))

-- `ClaimTopic`
abbrev pub claim_topic : Bytes → Bytes → Bytes → Bytes
claim_topic root namespace name = root ++ (codes "/_claims/" ++ (namespace ++ (slash ++ name)))

-- `presenceTopic`
abbrev pub presence_topic : Bytes → Bytes → Bytes
presence_topic root daemon_id = root ++ (codes "/_daemons/" ++ (daemon_id ++ codes "/alive"))

append_cancel : (s a b : Bytes) → s ++ a ≡ s ++ b → a ≡ b
append_cancel s a b h =
    sym (trim_prefix-append s a) ∙ ap (λ t. trim_prefix t s) h ∙ trim_prefix-append s b

segment_cancel :
    (a b x y : Bytes)
    → contains_byte a b'/' ≡ false
    → contains_byte b b'/' ≡ false
    → a ++ b'/' ∷ x ≡ b ++ b'/' ∷ y
    → (a ≡ b) × (x ≡ y)
segment_cancel a b x y p q h =
    let e : some (a, x) ≡ some (b, y) =
      sym (cut-append b'/' a x p) ∙ ap (cut b'/') h ∙ cut-append b'/' b y q in
    (cc (e), cc (e))

-- the topics of one sandbox
pub data Kind : Type 0 where
  status : Kind
  net_denied : Kind
  inbox : Kind

abbrev pub kind_name : Kind → Bytes
kind_name status = codes "status"
kind_name net_denied = codes "net-denied"
kind_name inbox = codes "inbox"

abbrev pub topic_of : Kind → Bytes → Bytes → Bytes → Bytes
topic_of status root namespace name = status_topic root namespace name
topic_of net_denied root namespace name = net_denied_topic root namespace name
topic_of inbox root namespace name = inbox_topic root namespace name

topic_of_eq :
    (k : Kind) (root namespace name : Bytes)
    → topic_of k root namespace name
      ≡ root ++ (slash ++ (namespace ++ b'/' ∷ (name ++ b'/' ∷ kind_name k)))
topic_of_eq status root namespace name = refl
topic_of_eq net_denied root namespace name = refl
topic_of_eq inbox root namespace name = refl

kind_name_injective : (k k' : Kind) → kind_name k ≡ kind_name k' → k ≡ k'
kind_name_injective status status h = refl
kind_name_injective status net_denied h = absurd (cc)
kind_name_injective status inbox h = absurd (cc)
kind_name_injective net_denied status h = absurd (cc)
kind_name_injective net_denied net_denied h = refl
kind_name_injective net_denied inbox h = absurd (cc)
kind_name_injective inbox status h = absurd (cc)
kind_name_injective inbox net_denied h = absurd (cc)
kind_name_injective inbox inbox h = refl

-- Where neither namespace and neither name has a slash, a status, net-denied or inbox topic belongs
-- to one sandbox and to one of the three kinds.
pub topic_of_injective :
    (k k' : Kind) (root n n' m m' : Bytes)
    → contains_byte n b'/' ≡ false
    → contains_byte n' b'/' ≡ false
    → contains_byte m b'/' ≡ false
    → contains_byte m' b'/' ≡ false
    → topic_of k root n m ≡ topic_of k' root n' m'
    → (k ≡ k') × (n ≡ n') × (m ≡ m')
topic_of_injective k k' root n n' m m' p p' q q' h =
    let e = append_cancel (root ++ slash) _ _ (
      append_assoc root slash _
      ∙ sym (topic_of_eq k root n m)
      ∙ h
      ∙ topic_of_eq k' root n' m'
      ∙ sym (append_assoc root slash _)) in
    let (same_n, rest) = segment_cancel n n' _ _ p p' e in
    let (same_m, kind) = segment_cancel m m' _ _ q q' rest in
    (kind_name_injective k k' kind, same_n, same_m)

-- The status topic of a sandbox in the namespace "_claims" is the claim topic of the sandbox named
-- "status" in the namespace that is the first sandbox's name.
pub status_topic-claim_topic :
    (root name : Bytes)
    → status_topic root (codes "_claims") name ≡ claim_topic root name (codes "status")
status_topic-claim_topic root name = refl

-- A claim topic is no presence topic.
pub claim_topic-presence_topic :
    (root namespace name daemon_id : Bytes)
    → claim_topic root namespace name ≢ presence_topic root daemon_id
unfolding has_prefix
claim_topic-presence_topic root namespace name daemon_id h =
    let e : true ≡ false = ap (λ t. has_prefix t (codes "/_c")) (append_cancel root _ _ h) in
    absurd (ground arith)

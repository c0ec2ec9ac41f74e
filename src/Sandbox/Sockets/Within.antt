-- ===== src/Sandbox/Sockets/Within.antt =====
-- internal/sandbox/agentsocket.go and toolsocket.go: what a sandbox reaches through its sockets.
use muro.Base.{
  ◌≡◌, ◌≢◌, ◌↔◌, refl, Bool, true, false, not, List, [], ◌∷◌, ◌++◌, Option, none, some, Bytes,
  codes, Any, bytes_eq, bytes_eq_iff, if◌then◌else◌, Bool-cases, Option-cases, inl, inr, arith, sym,
  subst, ap, ℕ, ◌≤◌, ◌==◌, ◌∙◌, length, ltb, contains_byte, append-nil, append_assoc,
}
use muro.Base
use muro.Config.{Mount, GitPolicy}
use muro.Config.Validate.{valid_sandbox_name}
use muro.GitProxy.Handle.{Git}
use muro.GitProxy.Handle.Cleared.{IsCommand, Ran, handle-Ran}
use muro.Pubsub.Topics.{slash}
use muro.Sandbox.Sockets.{
  AgentPublishRequest, AgentPublishResponse, accepted, rejected, no_broker, not_one_target,
  Published, to_inbox, to_all, topic_of, ToolExecRequest, max_request_size, read_line_limited_bytes,
  split_to_target, deliver, publish_inbox, publish, agent_conn, tool_conn,
}

module _ (connected : Bool) (delivers : Published → Bool) (own : Bytes) where
  -- the topic stands below the sandbox's own namespace, under any root
  abbrev pub Within : Published → Type 0
  Within p =
      (root : Bytes)
      → (rest : Bytes) × (topic_of root p ≡ root ++ (slash ++ (own ++ (slash ++ rest))))

  -- an inbox is that of a name which is valid
  abbrev pub Named : Published → Type 0
  Named (to_inbox namespace name message) = valid_sandbox_name name ≡ Base.ok tt
  Named (to_all namespace topic message) = Unit

  abbrev pub Answered : AgentPublishResponse × Option Published → Type 0
  Answered (reply, none) = reply ≢ accepted
  Answered (reply, some p) =
      Within p × Named p × (connected ≡ true) × ((reply ≡ accepted) ↔ (delivers p ≡ true))

  deliver-Answered :
      (p : Published)
      → Within p
      → Named p
      → connected ≡ true
      → Answered (deliver connected delivers own p)
  deliver-Answered p w n c = (w, n, c, (λ h. ground arith, λ h. rw h refl))

  publish_inbox-Answered :
      (message : Bytes) (target : Bytes × Bytes)
      → connected ≡ true
      → Answered (publish_inbox connected delivers own message target)
  unfolding publish_inbox
  publish_inbox-Answered message (given, name) c =
      let ns = if bytes_eq given [] then own else given in
      elim (Bool-cases (bytes_eq ns own)) [
        | inr other ↦ rw other (λ h. ground arith)
        | inl same ↦ rw same (elim (Base.Result-cases (valid_sandbox_name name)) [
          | inr (f, e) ↦ rw e (λ h. ground arith)
          | inl (u, e) ↦
              let q : ns ≡ own = (bytes_eq_iff ns own).0 same in
              rw e (
                rw q (
                  deliver-Answered (to_inbox own name message)
                    (λ root. (name ++ codes "/inbox", refl)) e c))
        ])
      ]

  if-Answered :
      (c : Bool) (x y : AgentPublishResponse × Option Published)
      → (c ≡ true → Answered x)
      → (c ≡ false → Answered y)
      → Answered (if c then x else y)
  if-Answered true x y h k = h refl
  if-Answered false x y h k = k refl

  publish-Answered : (req : AgentPublishRequest) → Answered (publish connected delivers own req)
  unfolding publish
  publish-Answered req =
      let named = publish_inbox connected delivers own req.message (split_to_target req.to) in
      let cast = deliver connected delivers own (to_all own req.broadcast req.message) in
      let chosen = if not (bytes_eq req.broadcast []) then cast else named in
      let sent : AgentPublishResponse × Option Published =
        if not connected then (rejected no_broker, none) else chosen in
      if-Answered _ (rejected not_one_target, none) sent (λ _ h. ground arith)
        λ _.
          if-Answered (not connected) (rejected no_broker, none) chosen (λ _ h. ground arith)
            λ c.
              let on : connected ≡ true = ground arith in
              if-Answered (not (bytes_eq req.broadcast [])) cast named
                (λ _.
                  deliver-Answered (to_all own req.broadcast req.message)
                    (λ root. (codes "broadcast/" ++ req.broadcast, refl)) tt on)
                (λ _. publish_inbox-Answered req.message (split_to_target req.to) on)

  -- Whatever bytes a sandbox sends on its agent socket, whatever they decode to: at most one message is
  -- published, and that below the sandbox's own namespace, whichever the root of the topics; one to an
  -- inbox is for a name that is valid. The response is without error exactly when a message was
  -- published and the broker took it.
  pub agent_conn_lem :
      (decode : Bytes → Option AgentPublishRequest) (input : Bytes)
      → Answered (agent_conn connected delivers own decode input)
  unfolding agent_conn
  agent_conn_lem decode input =
      elim (Option-cases (read_line_limited_bytes max_request_size [] input)) [
        | inl n ↦ rw (n, agent_conn) (λ h. ground arith)
        | inr (line, e) ↦ elim (Option-cases (decode line)) [
          | inl n ↦ rw (e, agent_conn) (rw n (λ h. ground arith))
          | inr (req, q) ↦ rw (e, agent_conn) (rw q (publish-Answered req))
        ]
      ]

reader_from :
    (most : ℕ) (so_far input text : Bytes)
    → length so_far ≤ most
    → read_line_limited_bytes most so_far input ≡ some text
    → (line : Bytes) × (rest : Bytes) × (text ≡ so_far ++ line)
      × (input ≡ line ++ 10 ∷ rest)
      × (contains_byte line 10 ≡ false)
      × (length text ≤ most)
unfolding read_line_limited_bytes contains_byte
reader_from most so_far [] text h e = absurd (ground arith)
reader_from most so_far (b ∷ input) text h e = elim (Bool-cases (b == 10)) [
  | inl q ↦
      let same : so_far ≡ text = ground arith in
      (
        [],
        input,
        sym same ∙ sym (append-nil so_far),
        ground (arith, q),
        refl,
        subst (λ t. length t ≤ most) same h,
      )
  | inr q ↦ elim (Bool-cases (ltb most (length (so_far ++ b ∷ [])))) [
    | inl big ↦ absurd (ground arith)
    | inr small ↦
        let (line, rest, a, i, c, l) =
          reader_from most (so_far ++ b ∷ []) input text (ground arith) (ground arith) in
        (
          b ∷ line,
          rest,
          a ∙ append_assoc so_far (b ∷ []) line,
          ap (λ r. b ∷ r) i,
          ground (arith, c, q),
          l,
        )
  ]
]

-- what `readLineLimitedBytes` returns is the text up to the first newline, and within the limit
reader-line :
    (most : ℕ) (input text : Bytes)
    → read_line_limited_bytes most [] input ≡ some text
    → (rest : Bytes) × (input ≡ text ++ 10 ∷ rest)
      × (contains_byte text 10 ≡ false)
      × (length text ≤ most)
reader-line most input text e =
    let (line, rest, a, i, c, l) = reader_from most [] input text (omega arith) e in
    (
      rest,
      subst (λ t. input ≡ t ++ 10 ∷ rest) (sym a) i,
      subst (λ t. contains_byte t 10 ≡ false) (sym a) c,
      l,
    )

module _ (decode : Bytes → Option ToolExecRequest) (glob : Bytes → Bytes → Option Bool) (git : Git)
    (mounts : List Mount) (policy : GitPolicy) (daemon : List Bytes) where
  -- The request that an input makes, with what let it through. Its line is what comes before the first
  -- newline, in at most 256 KiB.
  pub record Requested (input : Bytes) : Type 0 where
    pub text : Bytes
    pub req : ToolExecRequest
    pub rest : Bytes
    pub is_line : input ≡ text ++ 10 ∷ rest
    pub one_line : contains_byte text 10 ≡ false
    pub within : length text ≤ 262144
    pub decoded : decode text ≡ some req
    pub is_git : req.tool ≡ codes "git"
    pub ran : Ran glob git (record { argv = req.argv; cwd = req.cwd }) mounts policy daemon

  -- Whatever bytes a sandbox sends on its tool socket: git runs a command on the host only for a line of
  -- at most 262144 bytes, the text up to the input's first newline, that decodes to a request for git, which the policy of the sandbox and of the daemon
  -- let through, with the check of the current branch or of the plan of the push where there is one.
  pub tool_conn-Ran :
      (input : Bytes)
      → Any (IsCommand glob) (tool_conn decode glob git mounts policy daemon input).1
      → Requested input
  unfolding tool_conn
  tool_conn-Ran input h = elim (Option-cases (read_line_limited_bytes max_request_size [] input)) [
    | inl n ↦ absurd (rw (n, tool_conn) at h)
    | inr (line, e) ↦ elim (Option-cases (decode line)) [
      | inl n ↦ absurd (rw n at (rw (e, tool_conn) at h))
      | inr (req, q) ↦ elim (Bool-cases (bytes_eq req.tool (codes "git"))) [
        | inr o ↦ absurd (rw o at (rw q at (rw (e, tool_conn) at h)))
        | inl g ↦
            let (rest, is_line, one_line, within) = reader-line max_request_size input line e in
            record {
              text = line;
              rest = rest;
              req = req;
              is_line = is_line;
              one_line = one_line;
              within = omega (arith, within);
              decoded = q;
              is_git = (bytes_eq_iff req.tool (codes "git")).0 g;
              ran =
                  handle-Ran glob git (record { argv = req.argv; cwd = req.cwd }) mounts policy
                    daemon (rw g at (rw q at (rw (e, tool_conn) at h)));
            }
      ]
    ]
  ]

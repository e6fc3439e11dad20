-- ===== src/Handshake/Agreement.antt =====
-- An agent and a tunnel that hold one secret come together; nobody else is admitted
-- (agent/src/agent/main.cpp, agent/src/tunnel/main.cpp).
use webhook_ops.Common.{
  ◌≡◌, ◌≢◌, refl, sym, ap, ◌∙◌, Bool, true, false, Option, none, some, [], ◌∷◌, Bytes, arith,
  is_empty, Option-cases, Bool-cases, inl, inr,
}
use webhook_ops.Crypto.{OpenSsl, hmac_sha256_hex}
use webhook_ops.Text.{trim_copy}
use webhook_ops.Wire.{Frame, hello, hello_ok, auth_challenge, auth_response}
use webhook_ops.Tunnel.Settings.{Config}
use webhook_ops.Tunnel.Callback.{Network}
use webhook_ops.Tunnel.Auth.{authenticate_agent, uses_callback, signed_text}
use webhook_ops.Tunnel.Auth.Decides.{authenticate_agent-secret}
use webhook_ops.Handshake.{
  control_frame, connected, connect_once, proof_frame, admitted, hello_id, check_proof,
  challenge_agent, accept_agent,
}

not_empty : (s : Bytes) → s ≢ [] → is_empty s ≡ false
not_empty [] h = absurd (h refl)
not_empty (c ∷ s) h = refl

ne-nil : (s : Bytes) → is_empty s ≡ false → s ≢ []
ne-nil [] h = cc
ne-nil (c ∷ s) h = λ e. cc

hello_id-some :
    (first : Option Frame) (id : Bytes)
    → hello_id first ≡ some id
    → (f : Frame) × (first ≡ some f)
      × (f.frame_type ≡ hello)
      × (trim_copy f.payload ≡ id)
      × (id ≢ [])
unfolding hello_id
hello_id-some none id h = cc
hello_id-some (some f) id h =
    let same : trim_copy f.payload ≡ id = ground arith in
    let named : is_empty (trim_copy f.payload) ≡ false = ground arith in
    (f, refl, ground arith, same, ne-nil id (ap is_empty (sym same) ∙ named))

module _ (ssl : OpenSsl) (network : Network) (config : Config) (peer : Bytes) where
  pub handshake_succeeds :
      (id nonce : Bytes)
      → uses_callback config ≡ false
      → trim_copy id ≡ id
      → id ≢ []
      → nonce ≢ []
      → let challenge = control_frame auth_challenge nonce in
        let proof = proof_frame ssl config.secret id challenge in
        (connect_once ssl config.secret id true true true
            (some challenge)
            true
            (some (control_frame hello_ok []))
          ≡ (connected, control_frame hello id ∷ proof ∷ []))
        × (accept_agent ssl network config peer true
              (some (control_frame hello id))
              nonce
              true
              (some proof)
            ≡ admitted id)
  unfolding connect_once accept_agent proof_frame
  handshake_succeeds id nonce local trimmed named fresh =
      let text = hmac_sha256_hex ssl config.secret (signed_text id nonce) in
      let accepted : authenticate_agent ssl network config id nonce text peer ≡ true =
        (authenticate_agent-secret ssl network config id nonce text peer local).1 refl in
      (refl, ground (arith, trimmed, not_empty id named, not_empty nonce fresh, accepted))

  check_proof-admitted :
      (id' nonce : Bytes) (auth : Option Frame) (id : Bytes)
      → check_proof ssl network config peer id' nonce auth ≡ admitted id
      → (f : Frame) × (auth ≡ some f)
        × (f.frame_type ≡ auth_response)
        × (authenticate_agent ssl network config id nonce f.payload peer ≡ true)
        × (id' ≡ id)
  unfolding check_proof
  check_proof-admitted id' nonce none id h = cc
  check_proof-admitted id' nonce (some f) id h =
      elim (Bool-cases (authenticate_agent ssl network config id' nonce f.payload peer)) [
        | inl accepted ↦
            let same : id' ≡ id = ground arith in
            (
              f,
              refl,
              ground arith,
              ap (λ t. authenticate_agent ssl network config t nonce f.payload peer) (sym same)
                  ∙ accepted,
              same,
            )
        | inr refused ↦ absurd (ground arith)
      ]

  challenge_agent-admitted :
      (id' nonce : Bytes) (sent : Bool) (auth : Option Frame) (id : Bytes)
      → challenge_agent ssl network config peer id' nonce sent auth ≡ admitted id
      → (nonce ≢ [])
        × (sent ≡ true)
        × (check_proof ssl network config peer id' nonce auth ≡ admitted id)
  unfolding challenge_agent
  challenge_agent-admitted id' [] sent auth id h = cc
  challenge_agent-admitted id' (c ∷ nonce) true auth id h = (λ e. cc, refl, h)
  challenge_agent-admitted id' (c ∷ nonce) false auth id h = cc

  -- Nobody is admitted without naming itself in a HELLO frame and answering the challenge by an
  -- AUTH_RESPONSE frame whose proof the tunnel accepts for that name and that nonce.
  pub accept_agent-admitted :
      (tls challenge_sent : Bool) (first auth : Option Frame) (nonce id : Bytes)
      → accept_agent ssl network config peer tls first nonce challenge_sent auth ≡ admitted id
      → (h f : Frame) × (first ≡ some h)
        × (h.frame_type ≡ hello)
        × (trim_copy h.payload ≡ id)
        × (id ≢ [])
        × (nonce ≢ [])
        × (challenge_sent ≡ true)
        × (auth ≡ some f)
        × (f.frame_type ≡ auth_response)
        × (authenticate_agent ssl network config id nonce f.payload peer ≡ true)
  unfolding accept_agent
  accept_agent-admitted false sent first auth nonce id h = cc
  accept_agent-admitted true sent first auth nonce id h = elim (Option-cases (hello_id first)) [
    | inl bad ↦ absurd (ground arith)
    | inr (id', good) ↦
        let (fresh, was_sent, checked) =
          challenge_agent-admitted id' nonce sent auth id (rw good at h) in
        let (f, is_auth, typed, accepted, same) = check_proof-admitted id' nonce auth id checked in
        let (first', is_first, is_hello, trimmed, named) = hello_id-some first id' good in
        (
          first',
          f,
          is_first,
          is_hello,
          trimmed ∙ same,
          (λ e. named (same ∙ e)),
          fresh,
          was_sent,
          is_auth,
          typed,
          accepted,
        )
  ]

-- ===== src/Channel/Verified.antt =====
-- What a channel that was made has been through (agent/src/common/channel.cpp).
use webhook_ops.Common.{
  ◌≡◌, refl, sym, ap, ap₂, subst, ◌∙◌, Bool, true, false, List, [], ◌∷◌, ◌++◌, append_assoc,
  append-nil, Bytes, is_empty, if◌then◌else◌, All,
}
use webhook_ops.Tunnel.Settings.{TlsOptions}
use webhook_ops.Channel.{
  Call, new_context, new_ssl, set_fd, check_private_key, default_verify_paths, tls_connect,
  tls_accept, verify_result, use_certificate, use_private_key, load_verify_locations, set_host_name,
  set_host, set_verify, Step, must, just, Channel, new_channel, allocate, note, perform, close,
  Made, plain, secured, refused, finish, client_steps, client, server_steps, server,
}

abbrev call_of : Step → Call
call_of (must c) = c
call_of (just c) = c

abbrev calls_of : List Step → List Call
calls_of [] = []
calls_of (step ∷ steps) = call_of step ∷ calls_of steps

-- A call that must not fail did not.
abbrev Answered : (Call → Bool) → Step → Type 0
Answered answers (must c) = answers c ≡ true
Answered answers (just c) = Unit

allocate-calls : (c : Call) (ch : Channel) → (allocate c ch).calls ≡ ch.calls
allocate-calls new_context ch = refl
allocate-calls new_ssl ch = refl
allocate-calls _ ch = refl

abbrev Performed : (Call → Bool) → List Step → List Call → List Call → Type 0
Performed answers steps before after =
    All (Answered answers) steps × (after ≡ before ++ calls_of steps)

perform_lem :
    (answers : Call → Bool) (steps : List Step) (ch : Channel)
    → (perform answers steps ch).0 ≡ true
    → Performed answers steps ch.calls (perform answers steps ch).1.calls
unfolding perform
perform_lem answers [] ch h = (tt, sym (append-nil ch.calls))
perform_lem answers (just c ∷ steps) ch h =
    let (answered, same) = perform_lem answers steps (note c ch) h in
    ((tt, answered), same ∙ append_assoc ch.calls (c ∷ []) (calls_of steps))
perform_lem answers (must c ∷ steps) ch h =
    passed (answers c) refl (perform answers steps (allocate c (note c ch)))
      (perform_lem answers steps (allocate c (note c ch))) h
  where
    passed :
        (b : Bool)
        → answers c ≡ b
        → (rest : Bool × Channel)
        → (rest.0 ≡ true → Performed answers steps (allocate c (note c ch)).calls rest.1.calls)
        → (if b then rest else (false, note c ch)).0 ≡ true
        → Performed answers
            (must c ∷ steps)
            ch.calls
            (if b then rest else (false, note c ch)).1.calls
    passed true e rest k g =
        let (answered, same) = k g in
        (
          (e, answered),
          same
              ∙ ap (λ l. l ++ calls_of steps) (allocate-calls c (note c ch))
              ∙ append_assoc ch.calls (c ∷ []) (calls_of steps),
        )
    passed false e rest k g = absurd (cc)

-- Nothing is left of a channel.
pub record IsReleased (ch : Channel) : Type 0 where
  pub sock : ch.sock ≡ false
  pub ctx : ch.ctx ≡ false
  pub ssl : ch.ssl ≡ false

abbrev pub trust_call : TlsOptions → Call
trust_call tls =
    if is_empty tls.ca_path then default_verify_paths else load_verify_locations tls.ca_path

-- The calls that were made, in order: the verification of the peer is switched on, the trusted
-- authorities are loaded, and OpenSSL is given the name of the server, all before the TLS handshake.
-- The load and the handshake succeeded, and the certificate was found good; the other answers are not
-- looked at, or are those of allocations.
pub record IsVerified (answers : Call → Bool) (server_name : Bytes) (tls : TlsOptions)
    (calls : List Call) : Type 0 where
  pub order :
      calls
      ≡ new_context
        ∷ set_verify true
        ∷ trust_call tls
        ∷ new_ssl
        ∷ set_fd
        ∷ set_host_name server_name
        ∷ set_host server_name
        ∷ tls_connect
        ∷ verify_result
        ∷ []
  pub trusts : answers (trust_call tls) ≡ true
  pub connects : answers tls_connect ≡ true
  pub verifies : answers verify_result ≡ true

abbrev pub ClientHolds : (Call → Bool) → Bytes → TlsOptions → Made × Channel → Type 0
ClientHolds answers server_name tls (plain, ch) = ⊥
ClientHolds answers server_name tls (secured, ch) = IsVerified answers server_name tls ch.calls
ClientHolds answers server_name tls (refused, ch) = IsReleased ch

finish_holds :
    (P : Made × Channel → Type 0) (r : Bool × Channel)
    → (r.0 ≡ true → P (secured, r.1))
    → P (refused, close r.1)
    → P (finish r)
unfolding finish
finish_holds P (true, ch) k l = k refl
finish_holds P (false, ch) k l = l

abbrev strict_tls : TlsOptions → TlsOptions
strict_tls tls = record tls { enabled = true; insecure_skip_verify = false }

strict_holds :
    (answers : Call → Bool) (server_name : Bytes) (tls : TlsOptions)
    → ClientHolds answers server_name (strict_tls tls) (client answers server_name (strict_tls tls))
unfolding client close
strict_holds answers server_name tls =
    let steps = client_steps server_name (strict_tls tls) in
    finish_holds (ClientHolds answers server_name (strict_tls tls))
      (perform answers steps new_channel)
      (λ h.
        let ((made, (_, (trusted, (_, (_, (_, (_, (connected, (verified, _))))))))), order) =
          perform_lem answers steps new_channel h in
        record { order = order; trusts = trusted; connects = connected; verifies = verified })
      (record { sock = refl; ctx = refl; ssl = refl })

-- With TLS on and verification not switched off, the client's channel is never a plain one: it is
-- secured, after the trusted authorities were loaded, SSL_set1_host was called with the name of
-- the server, though its answer is not looked at, the handshake succeeded, in this order, and the
-- server's certificate was found good, or it is given up and nothing is left open, whatever the
-- calls of OpenSSL answer.
pub client-ClientHolds :
    (answers : Call → Bool) (server_name : Bytes) (tls : TlsOptions)
    → tls.enabled ≡ true
    → tls.insecure_skip_verify ≡ false
    → ClientHolds answers server_name tls (client answers server_name tls)
client-ClientHolds answers server_name tls on strict =
    subst (λ o. ClientHolds answers server_name o (client answers server_name o))
      (ap₂ (λ x y. record tls { enabled = x; insecure_skip_verify = y }) (sym on) (sym strict))
      (strict_holds answers server_name tls)

-- The tunnel's end is secured with a certificate and a key that belong together.
pub record IsCertified (answers : Call → Bool) (tls : TlsOptions) (calls : List Call) : Type 0 where
  pub order :
      calls
      ≡ new_context
        ∷ use_certificate tls.cert_path
        ∷ use_private_key tls.key_path
        ∷ check_private_key
        ∷ new_ssl
        ∷ set_fd
        ∷ tls_accept
        ∷ []
  pub certificate : answers (use_certificate tls.cert_path) ≡ true
  pub key : answers (use_private_key tls.key_path) ≡ true
  pub belong : answers check_private_key ≡ true
  pub accepts : answers tls_accept ≡ true

abbrev pub ServerHolds : (Call → Bool) → TlsOptions → Made × Channel → Type 0
ServerHolds answers tls (plain, ch) = ⊥
ServerHolds answers tls (secured, ch) = IsCertified answers tls ch.calls
ServerHolds answers tls (refused, ch) = IsReleased ch

certified_holds :
    (answers : Call → Bool) (tls : TlsOptions)
    → ServerHolds answers
        (record tls { enabled = true })
        (server answers (record tls { enabled = true }))
unfolding server close
certified_holds answers tls =
    finish_holds (ServerHolds answers (record tls { enabled = true }))
      (perform answers (server_steps tls) new_channel)
      (λ h.
        let ((made, (certificate, (key, (belong, (_, (_, (accepts, _))))))), order) =
          perform_lem answers (server_steps tls) new_channel h in
        record {
          order = order;
          certificate = certificate;
          key = key;
          belong = belong;
          accepts = accepts;
        })
      (record { sock = refl; ctx = refl; ssl = refl })

-- With TLS on, the tunnel's channel is never a plain one: it is secured, after a certificate and a key
-- that belong together were loaded and the handshake succeeded, or it is given up and nothing is left
-- open, whatever the calls of OpenSSL answer.
pub server-ServerHolds :
    (answers : Call → Bool) (tls : TlsOptions)
    → tls.enabled ≡ true
    → ServerHolds answers tls (server answers tls)
server-ServerHolds answers tls on =
    subst (λ o. ServerHolds answers o (server answers o))
      (ap (λ x. record tls { enabled = x }) (sym on)) (certified_holds answers tls)

-- ===== src/Net/Scripted.antt =====
-- A socket whose bytes are known in advance and move in pieces of one size: it shows that what
-- `Posix` asks of the operating system can be met, and lets the transfer functions run.
use webhook_ops.Common.{
  ℕ, suc, ◌≤◌, ◌<◌, ◌≡◌, ◌≢◌, refl, sym, ap, ap₂, ◌∙◌, Option, none, some, [], ◌∷◌, ◌++◌, arith,
  Bytes, length, take, drop, take-append-drop, length-take, min,
}
use webhook_ops.Net.Stream.{Received, got, closed}
use webhook_ops.Net.Posix.{Posix}

pub record Script : Type 0 where
  pub incoming : Bytes
  pub outgoing : Bytes
  -- One less than the bytes that a call moves at most.
  pub piece : ℕ

abbrev piece_size : Script → ℕ → ℕ
piece_size s n = min n (suc s.piece)

abbrev pub receive : Script → ℕ → Bytes → Received × Script
receive s n [] = (closed, s)
receive s n (b ∷ rest) =
    let m = piece_size s n in (got (take m (b ∷ rest)), record s { incoming = drop m (b ∷ rest) })

abbrev pub transmit : Script → Bytes → Option ℕ × Script
transmit s [] = (none, s)
transmit s (b ∷ rest) =
    let m = piece_size s (suc (length rest)) in
    (some m, record s { outgoing = s.outgoing ++ take m (b ∷ rest) })

got-injective : {xs ys : Bytes} → got xs ≡ got ys → xs ≡ ys
got-injective e = cc

some-injective : {m n : ℕ} → some m ≡ some n → m ≡ n
some-injective e = cc

-- A piece of a text that is not empty.
piece_bounds :
    (m b : ℕ) (rest : Bytes) → 0 < m → (take m (b ∷ rest) ≢ []) × (0 < min m (suc (length rest)))
piece_bounds m b rest h = (λ e. omega (arith, ap length e, length-take m (b ∷ rest)), omega arith)

pub receive-got :
    (s : Script) (all : Bytes) (n : ℕ) (bs : Bytes) (s' : Script)
    → 0 < n
    → receive s n all ≡ (got bs, s')
    → (bs ≢ []) × (length bs ≤ n) × (all ≡ bs ++ s'.incoming)
receive-got s [] n bs s' h e = absurd (cc)
receive-got s (b ∷ rest) n bs s' h e =
    let m = piece_size s n in
    let same : take m (b ∷ rest) ≡ bs = got-injective (ap (λ (r : Received × Script). r.0) e) in
    let left : drop m (b ∷ rest) ≡ s'.incoming = ap (λ (r : Received × Script). r.1.incoming) e in
    (
      λ z. (piece_bounds m b rest (omega arith)).0 (same ∙ z),
      omega (arith, ap length same, length-take m (b ∷ rest)),
      sym (take-append-drop m (b ∷ rest)) ∙ ap₂ (λ x y. x ++ y) same left,
    )

pub receive-up :
    (s : Script) (all : Bytes) (n : ℕ)
    → all ≢ []
    → (bs : Bytes) × (s' : Script) × (receive s n all ≡ (got bs, s')) × Unit {0}
receive-up s [] n h = absurd (h refl)
receive-up s (b ∷ rest) n h = (_, _, refl, tt)

pub receive-end :
    (s : Script) (all : Bytes) (n : ℕ) → all ≡ [] → (s' : Script) × (receive s n all ≡ (closed, s'))
receive-end s [] n h = (s, refl)
receive-end s (b ∷ rest) n h = cc

pub transmit-some :
    (s s' : Script) (bs : Bytes) (k : ℕ)
    → bs ≢ []
    → transmit s bs ≡ (some k, s')
    → (0 < k) × (k ≤ length bs) × (s'.outgoing ≡ s.outgoing ++ take k bs)
transmit-some s s' [] k h e = absurd (h refl)
transmit-some s s' (b ∷ rest) k h e =
    let m = piece_size s (suc (length rest)) in
    let same : m ≡ k = some-injective (ap (λ (r : Option ℕ × Script). r.0) e) in
    (
      omega arith,
      omega arith,
      sym (ap (λ (r : Option ℕ × Script). r.1.outgoing) e)
          ∙ ap (λ j. s.outgoing ++ take j (b ∷ rest)) same,
    )

pub transmit-none :
    (s s' : Script) (bs : Bytes) → transmit s bs ≡ (none, s') → s'.outgoing ≡ s.outgoing
transmit-none s s' [] e = sym (ap (λ (r : Option ℕ × Script). r.1.outgoing) e)
transmit-none s s' (b ∷ rest) e = absurd (cc)

pub transmit-up :
    (s : Script) (bs : Bytes)
    → bs ≢ []
    → (k : ℕ) × (s' : Script) × (transmit s bs ≡ (some k, s')) × Unit {0}
transmit-up s [] h = absurd (h refl)
transmit-up s (b ∷ rest) h = (_, _, refl, tt)

abbrev pub scripted : Posix
scripted = record {
  Sock = Script;
  recv = λ s n. receive s n s.incoming;
  send = transmit;
  pending = λ s. s.incoming;
  written = λ s. s.outgoing;
  IsUp = λ s. Unit {0};
  recv_got = λ s n bs s' h e. receive-got s s.incoming n bs s' h e;
  recv_up = λ s n h up more. receive-up s s.incoming n more;
  recv_end = λ s n h up none_left. receive-end s s.incoming n none_left;
  send_some = transmit-some;
  send_none = transmit-none;
  send_up = λ s bs h up. transmit-up s bs h;
}

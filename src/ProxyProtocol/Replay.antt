-- ===== src/ProxyProtocol/Replay.antt =====
-- src/proxy_protocol.rs: the bytes peeked from an untrusted peer, and what a reader of the stream
-- sees of them.
use barebones_reverse_proxy.Prelude.{
  ℕ, zero, suc, ◌+◌, ◌≤◌, ◌<◌, ◌≡◌, ◌≢◌, refl, sym, ap, ap₂, ◌∙◌, true, false, Option, none, some,
  List, [], ◌∷◌, ◌++◌, map, ok, err, ◌==◌, leb, ltb, lt→ltb, leb→le, Bool-cases, Option-cases, inl,
  inr, Text, lit, starts_with, starts_with_iff, take, drop, length, arith, append_assoc, append-nil,
  ==_iff, All,
}
use barebones_reverse_proxy.Config.{SecurityConfig}
use barebones_reverse_proxy.Net.{ip_eq, SocketAddr}
use barebones_reverse_proxy.ProxyProtocol.{
  byte, eof, io_error, stalled, TcpStream, Cursor, ProxyStream, new, read_prefix, finish_check,
  check_future, handle_proxy_protocol, Poll, ready, poll_read, spoof_message,
}

-- The bytes that a stream has yet to give, in front of what comes behind them.
abbrev pub bytes : Text → TcpStream → TcpStream
bytes s rest = map byte s ++ rest

-- The loop takes bytes off the stream and keeps every one of them.
read_prefix-bytes :
    (ps buf : Text) (stream : TcpStream) (buf' : Text) (rest : TcpStream)
    → read_prefix ps buf stream ≡ some (ok (buf', rest))
    → (read : Text) × (buf' ≡ buf ++ read) × (stream ≡ bytes read rest)
unfolding read_prefix
read_prefix-bytes [] buf stream buf' rest e = ([], ground (arith, append-nil buf), ground arith)
read_prefix-bytes (p ∷ ps) buf [] buf' rest e = absurd (ground arith)
read_prefix-bytes (p ∷ ps) buf (stalled ∷ stream) buf' rest e = absurd (ground arith)
read_prefix-bytes (p ∷ ps) buf (io_error m ∷ stream) buf' rest e = absurd (ground arith)
read_prefix-bytes (p ∷ ps) buf (eof ∷ stream) buf' rest e =
    ([], ground (arith, append-nil buf), ground arith)
read_prefix-bytes (p ∷ ps) buf (byte b ∷ stream) buf' rest e = elim (Bool-cases (b == p)) [
  | inl same ↦
      let (read, grown, left) =
        read_prefix-bytes ps (buf ++ (b ∷ [])) stream buf' rest (ground arith) in
      (b ∷ read, grown ∙ append_assoc buf (b ∷ []) read, ap (◌∷◌ (byte b)) left)
  | inr other ↦ (b ∷ [], ground arith, ground arith)
]

-- The loop over a prefix that is there reads just the prefix.
read_prefix_spoof :
    (ps buf : Text) (rest : TcpStream)
    → read_prefix ps buf (bytes ps rest) ≡ some (ok (buf ++ ps, rest))
unfolding read_prefix
read_prefix_spoof [] buf rest = ground (arith, append-nil buf)
read_prefix_spoof (p ∷ ps) buf rest =
    rw ((==_iff p p).1 refl)
      (read_prefix_spoof ps (buf ++ (p ∷ [])) rest ∙ rw (append_assoc buf (p ∷ []) ps))

module _ (peer_addr : SocketAddr) (sec : SecurityConfig) (enabled : sec.proxy_protocol ≡ true)
    (untrusted : ip_eq peer_addr.ip sec.trusted_upstream ≡ false) where
  -- With the protocol enabled, a peer that is not the trusted upstream and sends the word PROXY
  -- first is turned away with the error for spoofing, whatever it sends behind it.
  pub untrusted_spoof :
      (rest : TcpStream)
      → handle_proxy_protocol (bytes (lit "PROXY") rest) peer_addr sec ≡ err spoof_message
  unfolding handle_proxy_protocol check_future finish_check
  untrusted_spoof rest =
      rw (enabled, untrusted, read_prefix_spoof (lit "PROXY") [] rest)
        (rw ((starts_with_iff (lit "PROXY") (lit "PROXY")).1 ([], sym (append-nil (lit "PROXY")))))

  -- With the protocol enabled, from a peer that is not the trusted upstream: if the connection is
  -- accepted, then with the peer's own address, and the bytes peeked off the stream stand in the
  -- buffer in their order, the stream goes on right behind them, and they do not begin with PROXY.
  pub untrusted_replay :
      (stream : TcpStream) (ps : ProxyStream TcpStream) (addr : SocketAddr)
      → handle_proxy_protocol stream peer_addr sec ≡ ok (ps, addr)
      → (peeked : Text) × (addr ≡ peer_addr)
        × (ps ≡ new ps.inner (some peeked))
        × (stream ≡ bytes peeked ps.inner)
        × (starts_with (lit "PROXY") peeked ≡ false)
  unfolding handle_proxy_protocol check_future finish_check
  untrusted_replay stream ps addr e = elim (Option-cases (read_prefix (lit "PROXY") [] stream)) [
    | inl late ↦ absurd (ground (arith, enabled, untrusted))
    | inr (err m, failed) ↦ absurd (ground (arith, enabled, untrusted))
    | inr (ok (peeked, rest), read) ↦
        let (more, grown, left) = read_prefix-bytes (lit "PROXY") [] stream peeked rest read in
        elim (Bool-cases (starts_with (lit "PROXY") peeked)) [
          | inl spoof ↦ absurd (ground (arith, enabled, untrusted))
          | inr plain ↦ (
            peeked,
            ground (arith, enabled, untrusted),
            ground (arith, enabled, untrusted),
            left ∙ ap₂ bytes (sym grown) (ground (arith, enabled, untrusted)),
            plain,
          )
        ]
  ]

-- What a reader has still to get from the buffer.
unfoldable pub unread : {S : Type 0} → ProxyStream S → List ℕ
unread this = elim this.buffer [ none ↦ [] | some cursor ↦ drop cursor.position cursor.bytes ]

drop_nil {ℓ} : {A : Type ℓ} (n : ℕ) → drop {A = A} n [] ≡ []
drop_nil zero = refl
drop_nil (suc n) = refl

drop-add {ℓ} : {A : Type ℓ} (a b : ℕ) (l : List A) → drop (a + b) l ≡ drop b (drop a l)
drop-add zero b l = let e : zero + b ≡ b = omega arith in ap (λ n. drop n l) e
drop-add (suc a) b [] = drop_nil (suc a + b) ∙ sym (drop_nil b)
drop-add (suc a) b (x ∷ l) =
    let e : suc a + b ≡ suc (a + b) = omega arith in ap (λ n. drop n (x ∷ l)) e ∙ drop-add a b l

drop_of_length-take {ℓ} : {A : Type ℓ} (n : ℕ) (l : List A) → drop (length (take n l)) l ≡ drop n l
drop_of_length-take zero l = refl
drop_of_length-take (suc n) [] = refl
drop_of_length-take (suc n) (x ∷ l) = drop_of_length-take n l

drop_all {ℓ} : {A : Type ℓ} (n : ℕ) (l : List A) → length l ≤ n → drop n l ≡ []
drop_all zero [] h = refl
drop_all zero (x ∷ l) h = absurd (omega arith)
drop_all (suc n) [] h = refl
drop_all (suc n) (x ∷ l) h = drop_all n l (omega arith)

length_of_take : (n : ℕ) (l : List ℕ) → 0 < n → l ≢ [] → 0 < length (take n l)
length_of_take zero l h ne = elim h [ ]
length_of_take (suc n) [] h ne = absurd (ne refl)
length_of_take (suc n) (x ∷ l) h ne = omega arith

module _ {S : Type 0} (poll : ℕ → S → Poll × S) where
  -- With unread bytes in the buffer and room for some, a read gives as many of the first of them as
  -- there is room for, leaves the rest unread, and does not touch the inner stream.
  pub poll_read_buffered :
      (this : ProxyStream S) (remaining : ℕ)
      → 0 < remaining
      → unread this ≢ []
      → ((poll_read poll this remaining).0 ≡ ready (take remaining (unread this)))
        × (unread (poll_read poll this remaining).1 ≡ drop remaining (unread this))
        × ((poll_read poll this remaining).1.inner ≡ this.inner)
  unfolding poll_read unread
  poll_read_buffered this remaining room left = go this.buffer refl
    where
      go :
          (b : Option Cursor)
          → this.buffer ≡ b
          → ((poll_read poll this remaining).0 ≡ ready (take remaining (unread this)))
            × (unread (poll_read poll this remaining).1 ≡ drop remaining (unread this))
            × ((poll_read poll this remaining).1.inner ≡ this.inner)
      go none e = absurd (left (rw (e, unread)))
      go (some cursor) e =
          let rest = drop cursor.position cursor.bytes in
          let seen : unread this ≡ rest = rw (e, unread) in
          let chunk = take remaining rest in
          let some_left : ltb 0 (length chunk) ≡ true =
            lt→ltb 0 (length chunk) (length_of_take remaining rest room (λ h. left (seen ∙ h))) in
          let position = cursor.position + length chunk in
          let behind : drop position cursor.bytes ≡ drop remaining rest =
            drop-add cursor.position (length chunk) cursor.bytes
            ∙ drop_of_length-take remaining rest in
          rw (e, poll_read, unread, lt→ltb 0 remaining room, some_left)
            (elim (Bool-cases (leb (length cursor.bytes) position)) [
              | inl all ↦ rw all (
                refl,
                sym (
                    sym behind
                    ∙ drop_all position cursor.bytes (leb→le (length cursor.bytes) position all)),
                refl,
              )
              | inr more ↦ rw more (refl, behind, refl)
            ])

  -- A read without room for a byte gives what the inner stream gives and leaves nothing unread in
  -- the buffer.
  pub poll_read_no_room :
      (this : ProxyStream S)
      → ((poll_read poll this 0).0 ≡ (poll 0 this.inner).0)
        × (unread (poll_read poll this 0).1 ≡ [])
        × ((poll_read poll this 0).1.inner ≡ (poll 0 this.inner).1)
  unfolding poll_read unread
  poll_read_no_room this = ground arith

take-append-drop {ℓ} : {A : Type ℓ} (n : ℕ) (l : List A) → take n l ++ drop n l ≡ l
take-append-drop zero l = refl
take-append-drop (suc n) [] = refl
take-append-drop (suc n) (x ∷ l) = ap (◌∷◌ x) (take-append-drop n l)

abbrev chunk_bytes : Poll → List ℕ
chunk_bytes (ready bs) = bs
chunk_bytes _ = []

module _ {S : Type 0} (poll : ℕ → S → Poll × S) where
  -- Reads with the given room each, as long as the buffer has bytes: what they give, and the stream.
  unfoldable pub drain : List ℕ → ProxyStream S → List ℕ × ProxyStream S
  drain [] this = ([], this)
  drain (room ∷ rooms) this =
      let (chunk, this') = poll_read poll this room in
      let (later, last) = drain rooms this' in
      elim (unread this) [ [] ↦ ([], this) | _ ∷ _ ↦ (chunk_bytes chunk ++ later, last) ]

  drain_step :
      (room : ℕ) (rooms : List ℕ) (this : ProxyStream S) (l : List ℕ)
      → unread this ≡ l
      → drain (room ∷ rooms) this ≡ elim l [
        | [] ↦ ([], this)
        | _ ∷ _ ↦ (
          chunk_bytes (poll_read poll this room).0 ++ (drain rooms (poll_read poll this room).1).0,
          (drain rooms (poll_read poll this room).1).1,
        )
      ]
  unfolding drain
  drain_step room rooms this l e = rw (e, drain)

  drain_more :
      (room : ℕ) (rooms : List ℕ) (this : ProxyStream S) (l : List ℕ)
      → unread this ≡ l
      → 0 < room
      → (let next = (poll_read poll this room).1 in
          ((drain rooms next).0 ++ unread (drain rooms next).1 ≡ unread next)
          × ((drain rooms next).1.inner ≡ next.inner))
      → ((drain (room ∷ rooms) this).0 ++ unread (drain (room ∷ rooms) this).1 ≡ unread this)
        × ((drain (room ∷ rooms) this).1.inner ≡ this.inner)
  drain_more room rooms this [] e r ih = rw (drain_step room rooms this [] e) (refl, refl)
  drain_more room rooms this (b ∷ l) e r ih =
      let (given, left, same) =
        poll_read_buffered poll this room r (λ h. absurd (ground (arith, e, h))) in
      let next = (poll_read poll this room).1 in
      rw (drain_step room rooms this (b ∷ l) e) (
        append_assoc (chunk_bytes (poll_read poll this room).0) (drain rooms next).0
              (unread (drain rooms next).1)
            ∙ ap₂ (λ p t. chunk_bytes p ++ t) given (ih.0 ∙ left)
            ∙ take-append-drop room (unread this),
        ih.1 ∙ same,
      )

  -- Reads that each have room for some bytes give the buffered bytes in order, none twice and none
  -- left out: what they give, followed by what is left unread, is what was unread before, and the
  -- inner stream is not touched until then.
  pub drain-unread :
      (rooms : List ℕ) (this : ProxyStream S)
      → All (λ room. 0 < room) rooms
      → ((drain rooms this).0 ++ unread (drain rooms this).1 ≡ unread this)
        × ((drain rooms this).1.inner ≡ this.inner)
  unfolding drain
  drain-unread [] this rs = (refl, refl)
  drain-unread (room ∷ rooms) this (r, rs) =
      drain_more room rooms this (unread this) refl r
        (drain-unread rooms (poll_read poll this room).1 rs)

-- ===== src/Echo/Line.antt =====
-- A line that the client sends comes back from the coroutine.
use cppmulti_thread_server_b.Prelude.{
  ℕ, zero, suc, ◌-◌, ◌≤◌, ◌<◌, ◌≡◌, refl, ap, sym, ◌∙◌, List, [], ◌∷◌, ◌++◌, length, take, drop,
  arith, append-nil, append_assoc, length-append, length-take, length-drop, some,
}
use cppmulti_thread_server_b.Memory.{done, write_bytes}
use cppmulti_thread_server_b.Memory.Laws.{read_bytes-append, write_bytes-append}
use cppmulti_thread_server_b.Platform.{Platform}
use cppmulti_thread_server_b.Echo.{
  max_lenght, echo, c_string, buffer_size, request, reply, AreShort, echo-same,
}

-- Characters, none of which is the zero that ends a string.
abbrev pub AreChars : List ℕ → Type 0
AreChars [] = Unit {0}
AreChars (b ∷ bs) = (0 < b) × AreChars bs

-- The bytes of the pieces together.
abbrev pub joined : List (List ℕ) → List ℕ
joined [] = []
joined (bs ∷ reads) = bs ++ joined reads

take-AreChars : (n : ℕ) (bs : List ℕ) → AreChars bs → AreChars (take n bs)
take-AreChars zero bs v = tt
take-AreChars (suc n) [] v = tt
take-AreChars (suc n) (b ∷ bs) v = (v.0, take-AreChars n bs v.1)

c_string-chars : (bs rest : List ℕ) → AreChars bs → c_string (bs ++ 0 ∷ rest) ≡ done bs
unfolding c_string
c_string-chars [] rest v = refl
c_string-chars (zero ∷ bs) rest v = absurd (omega (arith, v.0))
c_string-chars (suc b ∷ bs) rest v = rw (c_string-chars bs rest v.1) refl

joined-AreShort : (reads : List (List ℕ)) → length (joined reads) ≤ max_lenght → AreShort reads
joined-AreShort [] h = tt
joined-AreShort (bs ∷ reads) h =
    let l = length-append bs (joined reads) in
    (omega (arith, l, h), joined-AreShort reads (omega (arith, l, h)))

module _ (p : Platform) where
  request-chars :
      (text rest : List ℕ)
      → length text < max_lenght
      → AreChars text
      → take (max_lenght - 1) rest ≡ text
      → request p rest ≡ done text
  unfolding request
  request-chars text rest l v e =
      let new = p.fresh_bytes max_lenght in
      let filled : write_bytes 0 (text ++ 0 ∷ []) new
          ≡ done (text ++ 0 ∷ drop (length (text ++ 0 ∷ [])) new) =
        write_bytes-append [] (text ++ 0 ∷ []) new refl
          (omega (arith, length-append text (0 ∷ []), p.length-fresh_bytes max_lenght))
        ∙ ap done (append_assoc text (0 ∷ []) _) in
      rw e (
        rw filled
          (rw (c_string-chars text _ v) (rw (fits l) (read_bytes-append [] text _ refl refl))))
    where
      fits : length text < max_lenght → buffer_size (length text) ≡ length text
      fits h = ground arith

  reply-chars :
      (text : List ℕ)
      → length text < max_lenght
      → AreChars text
      → reply p (length text) text ≡ done text
  unfolding reply
  reply-chars text l v =
      let new = p.fresh_bytes max_lenght in
      let rest = drop (length text) new in
      let came : p.async_read (length text) text ≡ some (text, []) =
        ap (p.async_read (length text)) (sym (append-nil text)) ∙ p.async_read_full text [] in
      let filled : write_bytes 0 text new ≡ done (text ++ rest) =
        write_bytes-append [] text new refl (omega (arith, p.length-fresh_bytes max_lenght)) in
      let ended : write_bytes (length text) (0 ∷ []) (text ++ rest)
          ≡ done (text ++ 0 ∷ drop 1 rest) =
        write_bytes-append text (0 ∷ []) rest refl
          (omega (arith, length-drop (length text) new, p.length-fresh_bytes max_lenght)) in
      rw (fits l, reply) (rw (came, reply) (rw filled (rw ended (c_string-chars text _ v))))
    where
      fits : length text < max_lenght → buffer_size (length text) ≡ length text
      fits h = ground arith

  -- A line without a zero character comes back, cut to its first 1023 characters, however the coroutine's
  -- reads cut it into pieces: the client sends those characters, the coroutine writes its pieces back,
  -- and the client prints them again; and no access of one of the three arrays of 1024 bytes is outside
  -- it.
  pub echo-line :
      (line array : List ℕ) (reads : List (List ℕ))
      → AreChars line
      → length array ≡ max_lenght
      → joined reads ≡ take (max_lenght - 1) line
      → (request p line ≡ done (joined reads))
        × (echo array reads ≡ done reads)
        × (reply p (length (joined reads)) (joined reads) ≡ done (take (max_lenght - 1) line))
  echo-line line array reads v l e =
      let text = take (max_lenght - 1) line in
      let short : length text < max_lenght = omega (arith, length-take (max_lenght - 1) line) in
      let chars = take-AreChars (max_lenght - 1) line v in
      (
        request-chars text line short chars refl ∙ ap done (sym e),
        echo-same array reads l (joined-AreShort reads (omega (arith, ap length e, short))),
        ap (λ t. reply p (length t) t) e ∙ reply-chars text short chars,
      )

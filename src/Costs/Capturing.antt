-- ===== src/Costs/Capturing.antt =====
-- The capturer of response bodies (`ResponseBodyCapturer` of internal/proxy/costs.go). The reader
-- behind it is a parameter: a read with room for some bytes gives bytes and maybe an error.
use kortex.Common.{ℕ, ◌≡◌, refl, sym, ap, ◌∙◌, String, Option, List, [], ◌∷◌, ◌++◌}

pub record ReadCloser : Type 1 where
  pub State : Type 0
  pub read_bytes : (room : ℕ) → State → State × List ℕ × Option String
  pub close : State → State × Option String

module _ (r : ReadCloser) where
  open r use {State, read_bytes, close}

  pub record ResponseBodyCapturer : Type 0 where
    pub body : List ℕ
    pub reader : State

  unfoldable pub new_response_body_capturer : State → ResponseBodyCapturer
  new_response_body_capturer reader = record { body = []; reader = reader }

  -- `Read`
  unfoldable pub capture : ℕ → ResponseBodyCapturer → ResponseBodyCapturer × List ℕ × Option String
  capture room c =
      let (reader, bytes, e) = read_bytes room c.reader in
      (record { body = c.body ++ bytes; reader = reader }, bytes, e)

  unfoldable pub close_capturer : ResponseBodyCapturer → ResponseBodyCapturer × Option String
  close_capturer c = let (reader, e) = close c.reader in (record c { reader = reader }, e)

  unfoldable pub captured : ResponseBodyCapturer → List ℕ
  captured c = c.body

  -- Reads one after the other, with what each gives.
  unfoldable pub reads : List ℕ → State → State × List (List ℕ × Option String)
  reads [] s = (s, [])
  reads (room ∷ rooms) s =
      let (s1, bytes, e) = read_bytes room s in
      let (s2, more) = reads rooms s1 in (s2, (bytes, e) ∷ more)

  unfoldable pub captures :
      List ℕ → ResponseBodyCapturer → ResponseBodyCapturer × List (List ℕ × Option String)
  unfolding capture
  captures [] c = (c, [])
  captures (room ∷ rooms) c =
      let (c1, bytes, e) = capture room c in
      let (c2, more) = captures rooms c1 in (c2, (bytes, e) ∷ more)

  unfoldable pub all_bytes : List (List ℕ × Option String) → List ℕ
  all_bytes [] = []
  all_bytes ((bytes, e) ∷ more) = bytes ++ all_bytes more

  append_assoc : (ks ls ms : List ℕ) → (ks ++ ls) ++ ms ≡ ks ++ (ls ++ ms)
  append_assoc [] ls ms = refl
  append_assoc (a ∷ ks) ls ms = ap (λ rest. a ∷ rest) (append_assoc ks ls ms)

  append_nil : (ks : List ℕ) → ks ++ [] ≡ ks
  append_nil [] = refl
  append_nil (a ∷ ks) = ap (λ rest. a ∷ rest) (append_nil ks)

  -- Reads through a capturer give what the reads of its reader give, and leave that reader as those
  -- do.
  pub captures-reads :
      (rooms : List ℕ) (c : ResponseBodyCapturer)
      → ((captures rooms c).1 ≡ (reads rooms c.reader).1)
        × ((captures rooms c).0.reader ≡ (reads rooms c.reader).0)
  unfolding captures reads capture
  captures-reads [] c = (refl, refl)
  captures-reads (room ∷ rooms) c =
      let (same, left) = captures-reads rooms (capture room c).0 in
      (ap (λ more. ((capture room c).1, (capture room c).2) ∷ more) same, left)

  captures-body :
      (rooms : List ℕ) (c : ResponseBodyCapturer)
      → captured (captures rooms c).0 ≡ c.body ++ all_bytes (captures rooms c).1
  unfolding captures capture captured all_bytes
  captures-body [] c = sym (append_nil c.body)
  captures-body (room ∷ rooms) c =
      captures-body rooms (capture room c).0
      ∙ append_assoc c.body (capture room c).1 (all_bytes (captures rooms (capture room c).0).1)

  -- Whatever the sizes of the reads, a new capturer has captured exactly the bytes that its reader
  -- gives to these reads.
  pub captures_lem :
      (rooms : List ℕ) (s : State)
      → captured (captures rooms (new_response_body_capturer s)).0 ≡ all_bytes (reads rooms s).1
  unfolding new_response_body_capturer
  captures_lem rooms s =
      captures-body rooms (new_response_body_capturer s)
      ∙ ap all_bytes (captures-reads rooms (new_response_body_capturer s)).0

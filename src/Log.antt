-- ===== src/Log.antt =====
-- `pj_log` of common/glog.c, which puts a line of the log together in a buffer of LOG_MAX_SIZE bytes. What
-- `vsnprintf` makes of the format and its arguments is given as the bytes `text`.
use files_event.Prelude.{
  ℕ, ◌+◌, ◌-◌, ◌≤◌, ◌<◌, ◌≡◌, refl, ap, subst, ◌∙◌, ◌⊎◌, inl, inr, Option-cases, arith, List, [],
  ◌∷◌, ◌++◌, ◌==◌, true, false, Option, none, some, length, take, length-take, length-append, codes,
  Run, returns, fault, deref, ◌>>=◌, leb, zero, suc,
}
use files_event.Memory.{Memory, zeroed, store, store_in, load, load-add, load-store_append}
use files_event.Proto.{c_string}
use files_event.Proto.Searching.{Without}

-- `LOG_MAX_SIZE`.
abbrev log_max_size : ℕ
log_max_size = 500

-- `ltexts`: the label of a level, if it has one.
abbrev pub label_of : ℕ → Option (List ℕ)
label_of zero = some (codes "FATAL:")
label_of (suc zero) = some (codes "ERROR:")
label_of (suc (suc zero)) = some (codes " WARN:")
label_of (suc (suc (suc zero))) = some (codes " INFO:")
label_of (suc (suc (suc (suc zero)))) = some (codes "DEBUG:")
label_of (suc (suc (suc (suc (suc zero))))) = some (codes "TRACE:")
label_of (suc (suc (suc (suc (suc (suc zero)))))) = some (codes "DETRC:")
label_of (suc (suc (suc (suc (suc (suc (suc n))))))) = none

-- `vsnprintf` with a size of `n + 1`: at most `n` bytes of the text, and a zero byte.
abbrev printed : ℕ → List ℕ → List ℕ
printed n text = take n text ++ (0 ∷ [])

-- The buffer with the label and the text in it, and the line that is printed.
unfoldable pub put_line : List ℕ → List ℕ → Run (List ℕ)
put_line text label = do
  copied ← store_in log_max_size zeroed 0 (label ++ (0 ∷ []))
  m ← store_in log_max_size copied 6 (printed (log_max_size - 7 - 1) text)
  returns (c_string (load m 0 log_max_size) ++ (10 ∷ []))

unfoldable pub pj_log : ℕ → List ℕ → Run (List ℕ)
pj_log level text = deref (label_of level) >>= put_line text

-- A label has six bytes, and stands at the front of the buffer.
abbrev IsLabel : List ℕ → Type 0
IsLabel label =
    (length label ≡ 6) × Without 0 label × (load (store zeroed 0 (label ++ (0 ∷ []))) 0 6 ≡ label)

same-IsLabel : (a b : List ℕ) → some a ≡ some b → IsLabel a → IsLabel b
same-IsLabel a b e h = let same : a ≡ b = cc in subst IsLabel same h

label_of-IsLabel : (level : ℕ) (label : List ℕ) → label_of level ≡ some label → IsLabel label
unfolding store load
label_of-IsLabel zero label e = same-IsLabel (codes "FATAL:") label e (refl, omega arith, refl)
label_of-IsLabel (suc zero) label e =
    same-IsLabel (codes "ERROR:") label e (refl, omega arith, refl)
label_of-IsLabel (suc (suc zero)) label e =
    same-IsLabel (codes " WARN:") label e (refl, omega arith, refl)
label_of-IsLabel (suc (suc (suc zero))) label e =
    same-IsLabel (codes " INFO:") label e (refl, omega arith, refl)
label_of-IsLabel (suc (suc (suc (suc zero)))) label e =
    same-IsLabel (codes "DEBUG:") label e (refl, omega arith, refl)
label_of-IsLabel (suc (suc (suc (suc (suc zero))))) label e =
    same-IsLabel (codes "TRACE:") label e (refl, omega arith, refl)
label_of-IsLabel (suc (suc (suc (suc (suc (suc zero)))))) label e =
    same-IsLabel (codes "DETRC:") label e (refl, omega arith, refl)
label_of-IsLabel (suc (suc (suc (suc (suc (suc (suc n))))))) label e = cc

Without-take : (q n : ℕ) (xs : List ℕ) → Without q xs → Without q (take n xs)
Without-take q zero xs w = tt
Without-take q (suc n) [] w = tt
Without-take q (suc n) (x ∷ xs) w = (w.0, Without-take q n xs w.1)

-- A text that ends in a zero byte is read up to it.
c_string-append :
    (xs ys rest : List ℕ)
    → Without 0 xs
    → Without 0 ys
    → c_string ((xs ++ (ys ++ (0 ∷ []))) ++ rest) ≡ xs ++ ys
unfolding c_string
c_string-append [] [] rest v w = refl
c_string-append [] (y ∷ ys) rest v w =
    let not_end : (y == 0) ≡ false = ground arith in
    rw (not_end, c_string-append [] ys rest v w.1) refl
c_string-append (x ∷ xs) ys rest v w =
    let not_end : (x == 0) ≡ false = ground arith in
    rw (not_end, c_string-append xs ys rest v.1 w) refl

fits : (text : List ℕ) → length (printed 492 text) ≤ 493
fits text = omega (arith, length-append {0} (take 492 text) (0 ∷ []), length-take {0} 492 text)

-- What is in the buffer behind both writes.
buffer_lem :
    (label text : List ℕ)
    → IsLabel label
    → let body = printed 492 text in
      load (store (store zeroed 0 (label ++ (0 ∷ []))) 6 body) 0 500
      ≡ (label ++ body)
        ++ load
            (store (store zeroed 0 (label ++ (0 ∷ []))) 6 body)
            (0 + (6 + length body))
            (500 - (6 + length body))
buffer_lem label text (six, _, front) =
    let body : List ℕ = printed 492 text in
    let m : Memory = store zeroed 0 (label ++ (0 ∷ [])) in
    ap (load (store m 6 body) 0) {x = 500} {y = 6 + length body + (500 - (6 + length body))}
      (omega (arith, fits text))
    ∙ load-add (store m 6 body) 0 (6 + length body) (500 - (6 + length body))
    ∙ ap (λ r. r ++ load (store m 6 body) (0 + (6 + length body)) (500 - (6 + length body)))
        (load-store_append m 6 body ∙ ap (λ r. r ++ body) front)

put_line_lem :
    (label text : List ℕ)
    → IsLabel label
    → Without 0 text
    → put_line text label ≡ returns (label ++ take 492 text ++ (10 ∷ []))
unfolding put_line
put_line_lem label text is w =
    let body : List ℕ = printed 492 text in
    let m : Memory = store (store zeroed 0 (label ++ (0 ∷ []))) 6 body in
    let first : leb (0 + length (label ++ (0 ∷ []))) 500 ≡ true =
      ground (arith, is.0, length-append {0} label (0 ∷ [])) in
    let second : leb (6 + length body) 500 ≡ true = ground (arith, fits text) in
    rw (first, second)
      (ap (λ bs. returns (c_string bs ++ (10 ∷ []))) (buffer_lem label text is)
        ∙ ap (λ bs. returns (bs ++ (10 ∷ [])))
            (c_string-append label (take 492 text)
              (load m (0 + (6 + length body)) (500 - (6 + length body))) is.1
              (Without-take 0 492 text w)))

unlabelled : (level : ℕ) → label_of level ≡ none → 6 < level
unlabelled zero e = cc
unlabelled (suc zero) e = cc
unlabelled (suc (suc zero)) e = cc
unlabelled (suc (suc (suc zero))) e = cc
unlabelled (suc (suc (suc (suc zero)))) e = cc
unlabelled (suc (suc (suc (suc (suc zero))))) e = cc
unlabelled (suc (suc (suc (suc (suc (suc zero)))))) e = cc
unlabelled (suc (suc (suc (suc (suc (suc (suc n))))))) e = omega arith

-- A line of the log whose text has no zero byte: with a level from 0 to 6 it fits the buffer, so that the
-- label, at most 492 bytes of the text and the zero byte are written inside it; just these bytes of both and a
-- newline are printed, which are no more than the buffer has. A higher level reads behind the labels.
pub pj_log-fits :
    (level : ℕ) (text : List ℕ)
    → Without 0 text
    → ((label : List ℕ) × (label_of level ≡ some label)
        × (pj_log level text ≡ returns (label ++ take 492 text ++ (10 ∷ [])))
        × (length (label ++ take 492 text ++ (10 ∷ [])) ≤ 500))
      ⊎ ((6 < level) × (pj_log level text ≡ fault))
unfolding pj_log
pj_log-fits level text w = elim (Option-cases (label_of level)) [
  | inl e ↦ inr (unlabelled level e, ap (λ o. deref o >>= put_line text) e)
  | inr (label, e) ↦
      let is = label_of-IsLabel level label e in
      inl (
        label,
        e,
        ap (λ o. deref o >>= put_line text) e ∙ put_line_lem label text is w,
        omega (
          arith,
          is.0,
          length-append {0} (label ++ take 492 text) (10 ∷ []),
          length-append {0} label (take 492 text),
          length-take {0} 492 text,
        ),
      )
]

-- ===== src/Http/Unescape/Decodes.antt =====
-- Unescaping in place is percent-decoding.
use trakx.Common.{
  ℕ, zero, suc, ◌+◌, ◌-◌, ◌≤◌, ◌<◌, ◌≡◌, refl, sym, ap, ◌∙◌, true, false, [], ◌∷◌, ◌++◌, Option,
  none, some, length, length-append, le→ltb, lt→ltb, le→leb, lt→leb, set, get_or, take, take-append,
  append_assoc, append-nil, ◌==◌, arith, Bool-cases, inl, inr,
}
use trakx.Common.Bytes.{Bytes}
use mathlib.Core.Option
use trakx.Http.Unescape.Digits.{hex_byte-escaped_byte}
use trakx.Http.Unescape.{hex_byte, shift_left, unescape_loop, unescape_fast, percent_decode}

get_or-append : (xs ys : Bytes) (k d : ℕ) → get_or (xs ++ ys) (length xs + k) d ≡ get_or ys k d
get_or-append [] ys k d = let e : 0 + k ≡ k = omega arith in rw e refl
get_or-append (x ∷ xs) ys k d =
    let e : suc (length xs) + k ≡ suc (length xs + k) = omega arith in
    rw e (get_or-append xs ys k d)

set-append : (xs ys : Bytes) (k v : ℕ) → set (xs ++ ys) (length xs + k) v ≡ xs ++ set ys k v
set-append [] ys k v = let e : 0 + k ≡ k = omega arith in rw e refl
set-append (x ∷ xs) ys k v =
    let e : suc (length xs) + k ≡ suc (length xs + k) = omega arith in
    rw e (ap (◌∷◌ x) (set-append xs ys k v))

-- The shift takes out the two bytes behind `front`, and leaves something at the end.
shift_left_lem :
    (rest front : Bytes) (x h k : ℕ)
    → x + 1 ≡ length front
    → (end : Bytes) × (shift_left (length rest) x (front ++ (h ∷ k ∷ rest))
        ≡ front ++ (rest ++ end))
unfolding shift_left
shift_left_lem [] front x h k e = (h ∷ k ∷ [], refl)
shift_left_lem (r ∷ rest) front x h k e =
    let bs = front ++ (h ∷ k ∷ r ∷ rest) in
    let at : x + 1 ≡ length front + 0 = omega (arith, e) in
    let from : x + 3 ≡ length front + 2 = omega (arith, e) in
    let value : get_or bs (x + 3) 0 ≡ r = rw from (get_or-append front (h ∷ k ∷ r ∷ rest) 2 0) in
    let moved : set bs (x + 1) (get_or bs (x + 3) 0) ≡ (front ++ (r ∷ [])) ++ (k ∷ r ∷ rest) =
      rw (value, at)
        (set-append front (h ∷ k ∷ r ∷ rest) 0 r
          ∙ sym (append_assoc front (r ∷ []) (k ∷ r ∷ rest))) in
    let (end, ih) =
      shift_left_lem rest (front ++ (r ∷ [])) (x + 1) k r
        (omega (arith, e, length-append front (r ∷ []))) in
    (
      end,
      ap (shift_left (length rest) (x + 1)) moved ∙ ih ∙ append_assoc front (r ∷ []) (rest ++ end),
    )

-- The rounds of the loop.
loop_end : (n i l : ℕ) (bs : Bytes) → l ≤ i → unescape_loop n i l bs ≡ some (take l bs)
unfolding unescape_loop
loop_end zero i l bs h = refl
loop_end (suc n) i l bs h = rw (le→ltb i l h, unescape_loop)

loop_plain :
    (n i l : ℕ) (bs : Bytes)
    → i < l
    → (get_or bs i 0 == b'%') ≡ false
    → unescape_loop (suc n) i l bs ≡ unescape_loop n (i + 1) l bs
unfolding unescape_loop
loop_plain n i l bs h e = rw (lt→ltb i l h, unescape_loop, e)

loop_short :
    (n i l : ℕ) (bs : Bytes)
    → i < l
    → (get_or bs i 0 == b'%') ≡ true
    → l ≤ i + 2
    → unescape_loop (suc n) i l bs ≡ none
unfolding unescape_loop
loop_short n i l bs h e k = rw (lt→ltb i l h, unescape_loop, e, le→leb l (i + 2) k)

loop_escape :
    (n i l : ℕ) (bs : Bytes)
    → i < l
    → (get_or bs i 0 == b'%') ≡ true
    → i + 2 < l
    → unescape_loop (suc n) i l bs
      ≡ unescape_loop n (i + 1) (l - 2) (
          shift_left
            (length bs - 3 - i)
            i
            (set bs i (hex_byte (get_or bs (i + 1) 0) (get_or bs (i + 2) 0))))
unfolding unescape_loop
loop_escape n i l bs h e k = rw (lt→ltb i l h, unescape_loop, e, lt→leb l (i + 2) k)

-- The definition, by what stands in front.
pub percent_decode_plain :
    (c : ℕ) (cs : Bytes)
    → (c == b'%') ≡ false
    → percent_decode (c ∷ cs) ≡ Option.map (◌∷◌ c) (percent_decode cs)
unfolding percent_decode
percent_decode_plain c [] e = rw (e, percent_decode)
percent_decode_plain c (h ∷ []) e = rw (e, percent_decode)
percent_decode_plain c (h ∷ k ∷ cs) e = rw (e, percent_decode)

pub percent_decode_escape :
    (c h k : ℕ) (cs : Bytes)
    → (c == b'%') ≡ true
    → percent_decode (c ∷ h ∷ k ∷ cs) ≡ Option.map (◌∷◌ (hex_byte h k)) (percent_decode cs)
unfolding percent_decode
percent_decode_escape c h k cs e = rw (e, percent_decode, hex_byte-escaped_byte h k)

percent_decode_short :
    (c : ℕ) (cs : Bytes) → (c == b'%') ≡ true → length cs < 2 → percent_decode (c ∷ cs) ≡ none
unfolding percent_decode
percent_decode_short c [] e h = rw (e, percent_decode)
percent_decode_short c (d ∷ []) e h = rw (e, percent_decode)
percent_decode_short c (d ∷ k ∷ cs) e h = absurd (omega arith)

-- What is decoded of the rest, behind what is decoded already.
abbrev behind : Bytes → Option Bytes → Option Bytes
behind done r = Option.map (λ t. done ++ t) r

behind_one :
    (done : Bytes) (c : ℕ) (r : Option Bytes)
    → behind (done ++ (c ∷ [])) r ≡ behind done (Option.map (◌∷◌ c) r)
behind_one done c none = refl
behind_one done c (some t) = ap some (append_assoc done (c ∷ []) t)

-- One escape in the middle of the bytes: `done`, the escape, what is left, and bytes that no longer
-- count.
escape_step :
    (done cs junk : Bytes) (i c h k : ℕ)
    → i ≡ length done
    → (end : Bytes) × (let bs = done ++ (c ∷ h ∷ k ∷ (cs ++ junk)) in
        shift_left
          (length bs - 3 - i)
          i
          (set bs i (hex_byte (get_or bs (i + 1) 0) (get_or bs (i + 2) 0)))
        ≡ (done ++ (hex_byte h k ∷ [])) ++ (cs ++ (junk ++ end)))
escape_step done cs junk i c h k e =
    let rest = cs ++ junk in
    let bs = done ++ (c ∷ h ∷ k ∷ rest) in
    let v = hex_byte h k in
    let first : get_or bs (i + 1) 0 ≡ h =
      let p : i + 1 ≡ length done + 1 = omega (arith, e) in
      rw p (get_or-append done (c ∷ h ∷ k ∷ rest) 1 0) in
    let second : get_or bs (i + 2) 0 ≡ k =
      let p : i + 2 ≡ length done + 2 = omega (arith, e) in
      rw p (get_or-append done (c ∷ h ∷ k ∷ rest) 2 0) in
    let written : set bs i v ≡ (done ++ (v ∷ [])) ++ (h ∷ k ∷ rest) =
      let p : i ≡ length done + 0 = omega (arith, e) in
      rw p (set-append done (c ∷ h ∷ k ∷ rest) 0 v)
      ∙ sym (append_assoc done (v ∷ []) (h ∷ k ∷ rest)) in
    let rounds : length bs - 3 - i ≡ length rest =
      omega (arith, e, length-append done (c ∷ h ∷ k ∷ rest)) in
    let (end, shifted) =
      shift_left_lem rest (done ++ (v ∷ [])) i h k
        (omega (arith, e, length-append done (v ∷ []))) in
    (
      end,
      ap (λ n. shift_left n i (set bs i (hex_byte (get_or bs (i + 1) 0) (get_or bs (i + 2) 0))))
            rounds
          ∙ ap (λ x. shift_left (length rest) i (set bs i (hex_byte x (get_or bs (i + 2) 0)))) first
          ∙ ap (λ x. shift_left (length rest) i (set bs i (hex_byte h x))) second
          ∙ ap (shift_left (length rest) i) written
          ∙ shifted
          ∙ ap (λ x. (done ++ (v ∷ [])) ++ x) (append_assoc cs junk end),
    )

-- The state of the loop: what is decoded, what is to be decoded, and bytes that no longer count.
unescape_loop_lem :
    (rounds : ℕ) (done todo junk : Bytes) (i l : ℕ)
    → i ≡ length done
    → l ≡ length done + length todo
    → length todo ≤ rounds
    → unescape_loop rounds i l (done ++ (todo ++ junk)) ≡ behind done (percent_decode todo)
unescape_loop_lem rounds done [] junk i l ei el h =
    let all : l ≡ length done = omega (arith, el) in
    loop_end rounds i l (done ++ junk) (omega arith)
    ∙ ap some (rw all (take-append done junk) ∙ sym (append-nil done))
    ∙ unfold percent_decode in refl
unescape_loop_lem zero done (c ∷ todo) junk i l ei el h = absurd (omega arith)
unescape_loop_lem (suc n) done (c ∷ todo) junk i l ei el h =
    let at : i ≡ length done + 0 = omega (arith, ei) in
    let here : get_or (done ++ (c ∷ (todo ++ junk))) i 0 ≡ c =
      rw at (get_or-append done (c ∷ (todo ++ junk)) 0 0) in
    elim (Bool-cases (c == b'%')) [
      | inr e ↦
          loop_plain n i l _ (omega arith) (rw here e)
          ∙ ap (unescape_loop n (i + 1) l) (sym (append_assoc done (c ∷ []) (todo ++ junk)))
          ∙ unescape_loop_lem n (done ++ (c ∷ [])) todo junk (i + 1) l
              (omega (arith, ei, length-append done (c ∷ [])))
              (omega (arith, el, length-append done (c ∷ []))) (omega arith)
          ∙ behind_one done c (percent_decode todo)
          ∙ ap (behind done) (sym (percent_decode_plain c todo e))
      | inl e ↦
          escaped todo el h e here
            (λ done' cs junk' l' p q r. unescape_loop_lem n done' cs junk' (i + 1) l' p q r)
    ]
  where
    escaped :
        (todo : Bytes)
        → l ≡ length done + length (c ∷ todo)
        → length (c ∷ todo) ≤ suc n
        → (c == b'%') ≡ true
        → get_or (done ++ (c ∷ (todo ++ junk))) i 0 ≡ c
        → ((done' cs junk' : Bytes) (l' : ℕ)
            → i + 1 ≡ length done'
            → l' ≡ length done' + length cs
            → length cs ≤ n
            → unescape_loop n (i + 1) l' (done' ++ (cs ++ junk'))
              ≡ behind done' (percent_decode cs))
        → unescape_loop (suc n) i l (done ++ (c ∷ (todo ++ junk)))
          ≡ behind done (percent_decode (c ∷ todo))
    escaped [] el h e here ih =
        loop_short n i l _ (omega arith) (rw here e) (omega arith)
        ∙ ap (behind done) (sym (percent_decode_short c [] e (omega arith)))
    escaped (d ∷ []) el h e here ih =
        loop_short n i l _ (omega arith) (rw here e) (omega arith)
        ∙ ap (behind done) (sym (percent_decode_short c (d ∷ []) e (omega arith)))
    escaped (d ∷ k ∷ cs) el h e here ih =
        let (end, p) = escape_step done cs junk i c d k ei in
        loop_escape n i l _ (omega arith) (rw here e) (omega arith)
        ∙ ap (unescape_loop n (i + 1) (l - 2)) p
        ∙ ih (done ++ (hex_byte d k ∷ [])) cs (junk ++ end) (l - 2)
            (omega (arith, ei, length-append done (hex_byte d k ∷ [])))
            (omega (arith, el, length-append done (hex_byte d k ∷ []))) (omega arith)
        ∙ behind_one done (hex_byte d k) (percent_decode cs)
        ∙ ap (behind done) (sym (percent_decode_escape c d k cs e))

behind_nothing : (r : Option Bytes) → behind [] r ≡ r
behind_nothing none = refl
behind_nothing (some t) = refl

-- On every slice but nil, unescaping in place gives what percent-decoding gives, and nil exactly if
-- there is no result: an escape is cut off. A byte behind a % that is no hexadecimal digit counts as
-- the digit 0.
pub unescape_fast-percent_decode : (bs : Bytes) → unescape_fast (some bs) ≡ percent_decode bs
unfolding unescape_fast
unescape_fast-percent_decode bs =
    ap (unescape_loop (length bs) 0 (length bs)) (sym (append-nil bs))
    ∙ unescape_loop_lem (length bs) [] bs [] 0 (length bs) refl (omega arith) (omega arith)
    ∙ behind_nothing (percent_decode bs)

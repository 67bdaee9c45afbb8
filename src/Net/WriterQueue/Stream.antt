-- ===== src/Net/WriterQueue/Stream.antt =====
-- The queue as a byte stream.
use net_lib.Net.WriterQueue.{
  Elem, WriterQueue, empty, frame, front_frame, shift, shift_front, IsValid, pending, pending_of,
}
use net_lib.Prelude.{
  ℕ, ◌+◌, ◌-◌, ◌≤◌, ◌<◌, min, true, false, List, [], ◌∷◌, ◌++◌, ◌≡◌, refl, sym, ap, ◌∙◌, arith, leb,
  is_nil, length, take, drop, All, done, drop-append_le, length-drop, length-take, drop_all,
  drop-drop, inl, inr, Bool-cases, leb→le, leb→gt, take_prefix,
}

-- The front chunk of a valid queue is a prefix of what is pending, is no longer than the frame,
-- and has a byte at least if the queue is not empty and the frame has room.
pub frame_prefix :
    (w : WriterQueue) (n : ℕ)
    → IsValid w
    → (frame w n ≡ take (length (frame w n)) (pending w))
      × (length (frame w n) ≤ n)
      × (empty w ≡ false → 0 < n → 0 < length (frame w n))
unfolding frame pending empty
frame_prefix w n v = go w.q v
  where
    go :
        (es : List Elem)
        → All (λ e. e.cursor < length e.b) es
        → (front_frame es n ≡ take (length (front_frame es n)) (pending_of es))
          × (length (front_frame es n) ≤ n)
          × (is_nil es ≡ false → 0 < n → 0 < length (front_frame es n))
    go [] v = (refl, omega arith, λ e. cc)
    go (e ∷ es) (v, _) = (
      take_prefix _ (drop e.cursor e.b) (pending_of es),
      omega (arith, size),
      λ _ h. omega (arith, size),
    )
      where
        size : length (front_frame (e ∷ es) n) ≡ min (length e.b - e.cursor) n
        size = omega (
          arith,
          length-take (min (length e.b - e.cursor) n) (drop e.cursor e.b),
          length-drop e.cursor e.b,
        )

front_fits :
    (e : Elem) (es : List Elem) (k n : ℕ)
    → n ≤ length (front_frame (e ∷ es) k)
    → n ≤ length (drop e.cursor e.b)
unfolding front_frame
front_fits e es k n h = omega (
  arith,
  length-take (min (length e.b - e.cursor) k) (drop e.cursor e.b),
  length-drop e.cursor e.b,
)

shift_front_lem :
    (es : List Elem) (k n : ℕ)
    → All (λ e. e.cursor < length e.b) es
    → is_nil es ≡ false
    → n ≤ length (front_frame es k)
    → (es' : List Elem) × (shift_front es n ≡ done es')
      × (pending_of es' ≡ drop n (pending_of es))
      × All (λ e. e.cursor < length e.b) es'
unfolding shift_front pending_of
shift_front_lem [] k n v ne h = absurd (cc)
shift_front_lem (e ∷ es) k n (v, vs) ne h = elim (Bool-cases (leb (length e.b) (e.cursor + n))) [
  | inl t ↦ (
    es,
    rw t,
    sym (
        split
        ∙ ap (λ l. l ++ pending_of es)
            (drop_all n (drop e.cursor e.b)
              (omega (arith, leb→le _ _ t, length-drop e.cursor e.b)))),
    vs,
  )
  | inr f ↦ (
    record e { cursor = e.cursor + n } ∷ es,
    rw f,
    sym (split ∙ ap (λ l. l ++ pending_of es) (drop-drop e.cursor n e.b)),
    (leb→gt _ _ f, vs),
  )
]
  where
    split :
        drop n (drop e.cursor e.b ++ pending_of es) ≡ drop n (drop e.cursor e.b) ++ pending_of es
    split = drop-append_le n (drop e.cursor e.b) (pending_of es) (front_fits e es k n h)

-- On a valid queue that is not empty, a shift by no more than its front chunk succeeds, drops
-- exactly these bytes from what is pending, and keeps the queue valid.
pub shift_lem :
    (w : WriterQueue) (frame_size n : ℕ)
    → IsValid w
    → empty w ≡ false
    → n ≤ length (frame w frame_size)
    → (w' : WriterQueue) × (shift w n ≡ done w') × (pending w' ≡ drop n (pending w)) × IsValid w'
unfolding shift frame pending empty
shift_lem w k n v ne h =
    let (es, e, p, v') = shift_front_lem w.q k n v ne h in (record { q = es }, rw (e, shift), p, v')

pub empty-pending : (w : WriterQueue) → empty w ≡ true → pending w ≡ []
unfolding empty pending
empty-pending w e = go w.q e
  where
    go : (es : List Elem) → is_nil es ≡ true → pending_of es ≡ []
    go [] e = refl
    go (x ∷ xs) e = cc

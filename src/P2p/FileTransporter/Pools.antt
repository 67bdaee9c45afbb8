-- ===== src/P2p/FileTransporter/Pools.antt =====
-- A peer that is gone takes exactly its own files with it.
use net_lib.P2p.FileTransporter.{
  Event, IfileItem, OfileItem, Transporter, ready_send, download_interrupted, on_failure,
  upload_stopped, download_progress, download_complete, read_chunk, without_addresser,
  without_addressee, expire_addresser, expire_addressee, step_item, step_items, step,
}
use net_lib.Prelude.Dict.{find, Distinct}
use net_lib.Prelude.{
  ℕ, ◌≡◌, refl, ap, ◌∙◌, List, [], ◌∷◌, ◌++◌, Option, none, some, Bool, true, false, Bool-cases,
  inl, inr, if◌then◌else◌, ◌==◌, ==_iff, is_nil,
}

-- What is left of an item when a peer is gone.
abbrev pub unless_from : ℕ → Option IfileItem → Option IfileItem
unless_from addresser none = none
unless_from addresser (some item) = if item.addresser == addresser then none else some item

-- The files of a peer that are interrupted.
abbrev pub interrupted : ℕ → List (ℕ × IfileItem) → List Event
interrupted addresser [] = []
interrupted addresser ((f, item) ∷ m) =
    if item.addresser == addresser
    then download_interrupted addresser f ∷ interrupted addresser m
    else interrupted addresser m

without_addresser_lem :
    (addresser f : ℕ) (m : List (ℕ × IfileItem))
    → Distinct m
    → (find f (without_addresser addresser m).0 ≡ unless_from addresser (find f m))
      × ((without_addresser addresser m).1 ≡ interrupted addresser m)
unfolding without_addresser find
without_addresser_lem addresser f [] d = (refl, refl)
without_addresser_lem addresser f ((j, item) ∷ m) (fresh, d) =
    let (ih, events) = without_addresser_lem addresser f m d in
    elim (Bool-cases (item.addresser == addresser)) [
      | inl gone ↦
          rw (gone, events)
            (elim (Bool-cases (j == f)) [
              | inl here ↦
                  let e : j ≡ f = (==_iff j f).0 here in
                  let fresh' : find f m ≡ none = rw e at fresh in
                  (ih ∙ rw (fresh', here, gone) refl, refl)
              | inr other ↦ (ih ∙ rw other refl, refl)
            ])
      | inr stays ↦
          rw (stays, events)
            (elim (Bool-cases (j == f)) [
              | inl here ↦ (rw (here, stays) refl, refl)
              | inr other ↦ (rw other ih, refl)
            ])
    ]

-- In a pool of different files, when a peer is gone, the download of a file is gone exactly if
-- the peer sent it, and otherwise as it was; and the downloads that were interrupted are
-- reported, each once and in the order of the pool, and no other.
pub expire_addresser_lem :
    (t : Transporter) (addresser : ℕ)
    → Distinct t.ifile_pool
    → ((f : ℕ)
        → find f (expire_addresser t addresser).ifile_pool
          ≡ unless_from addresser (find f t.ifile_pool))
      × ((expire_addresser t addresser).log ≡ t.log ++ interrupted addresser t.ifile_pool)
unfolding expire_addresser
expire_addresser_lem t addresser d = (
  λ f. (without_addresser_lem addresser f t.ifile_pool d).0,
  ap (◌++◌ t.log) (without_addresser_lem addresser 0 t.ifile_pool d).1,
)

-- The events that are not packets to a peer.
abbrev pub not_to : ℕ → List Event → List Event
not_to addressee [] = []
not_to addressee (ready_send to f packet ∷ events) =
    if to == addressee
    then not_to addressee events
    else ready_send to f packet ∷ not_to addressee events
not_to addressee (other ∷ events) = other ∷ not_to addressee events

without-append :
    (addressee : ℕ) (xs ys : List (ℕ × OfileItem))
    → without_addressee addressee (xs ++ ys)
      ≡ without_addressee addressee xs ++ without_addressee addressee ys
unfolding without_addressee
without-append addressee [] ys = refl
without-append addressee ((f, item) ∷ xs) ys = elim (Bool-cases (item.addressee == addressee)) [
  | inl gone ↦ rw gone (without-append addressee xs ys)
  | inr stays ↦ rw stays (ap (◌∷◌ (f, item)) (without-append addressee xs ys))
]

not_to-append :
    (addressee : ℕ) (xs ys : List Event)
    → not_to addressee (xs ++ ys) ≡ not_to addressee xs ++ not_to addressee ys
not_to-append addressee [] ys = refl
not_to-append addressee (ready_send to f packet ∷ xs) ys = elim (Bool-cases (to == addressee)) [
  | inl same ↦ rw same (not_to-append addressee xs ys)
  | inr other ↦ rw other (ap (◌∷◌ (ready_send to f packet)) (not_to-append addressee xs ys))
]
not_to-append addressee (on_failure ∷ xs) ys = ap (◌∷◌ on_failure) (not_to-append addressee xs ys)
not_to-append addressee (upload_stopped p f ∷ xs) ys =
    ap (◌∷◌ (upload_stopped p f)) (not_to-append addressee xs ys)
not_to-append addressee (download_progress p f n m ∷ xs) ys =
    ap (◌∷◌ (download_progress p f n m)) (not_to-append addressee xs ys)
not_to-append addressee (download_complete p f n ∷ xs) ys =
    ap (◌∷◌ (download_complete p f n)) (not_to-append addressee xs ys)
not_to-append addressee (download_interrupted p f ∷ xs) ys =
    ap (◌∷◌ (download_interrupted p f)) (not_to-append addressee xs ys)

module _ (ready : ℕ → Bool) (chunk_size addressee : ℕ) where
  abbrev Gone : List (ℕ × OfileItem) × List Event → Type 0
  Gone r = (without_addressee addressee r.0 ≡ []) × (not_to addressee r.1 ≡ [])

  abbrev Stays : List (ℕ × OfileItem) × List Event → Type 0
  Stays r = (without_addressee addressee r.0 ≡ r.0) × (not_to addressee r.1 ≡ r.1)

  step_item-cases :
      (f : ℕ) (item : OfileItem)
      → ((item.addressee == addressee) ≡ true → Gone (step_item ready chunk_size (f, item)))
        × ((item.addressee == addressee) ≡ false → Stays (step_item ready chunk_size (f, item)))
  unfolding step_item without_addressee
  step_item-cases f item = elim (Bool-cases (ready item.addressee)) [
    | inr busy ↦ rw busy (λ e. rw e (refl, refl), λ e. rw e (refl, refl))
    | inl free ↦ rw free (elim (Bool-cases item.chunk_requested) [
      | inr idle ↦ rw idle (λ e. rw e (refl, refl), λ e. rw e (refl, refl))
      | inl asked ↦ rw asked (elim (Bool-cases (is_nil (read_chunk item chunk_size))) [
        | inl last ↦ rw last (λ e. rw e (refl, refl), λ e. rw e (refl, refl))
        | inr more ↦ rw more (λ e. rw e (refl, refl), λ e. rw e (refl, refl))
      ])
    ])
  ]

  step_items-without :
      (m : List (ℕ × OfileItem))
      → step_items ready chunk_size (without_addressee addressee m) ≡ (
        without_addressee addressee (step_items ready chunk_size m).0,
        not_to addressee (step_items ready chunk_size m).1,
      )
  unfolding step_items without_addressee
  step_items-without [] = refl
  step_items-without ((f, item) ∷ m) =
      let ih = step_items-without m in
      let x = step_item ready chunk_size (f, item) in
      let rest = step_items ready chunk_size m in
      let pools = without-append addressee x.0 rest.0 in
      let events = not_to-append addressee x.1 rest.1 in
      let (if_gone, if_stays) = step_item-cases f item in
      elim (Bool-cases (item.addressee == addressee)) [
        | inl gone ↦ let (p, q) = if_gone gone in rw (gone, pools, events, p, q) ih
        | inr stays ↦ let (p, q) = if_stays stays in rw (stays, pools, events, p, q, ih) refl
      ]

-- When a peer is gone, a step sends what it would have sent, in the same order, but for the
-- packets to that peer, and what is left of the uploads is what would have been left without its
-- own.
pub step-expire_addressee :
    (t : Transporter) (addressee : ℕ) (ready : ℕ → Bool)
    → ((step (expire_addressee t addressee) ready).0.ofile_pool
        ≡ without_addressee addressee (step t ready).0.ofile_pool)
      × ((events : List Event) × ((step t ready).0.log ≡ t.log ++ events)
          × ((step (expire_addressee t addressee) ready).0.log ≡ t.log ++ not_to addressee events))
unfolding step expire_addressee
step-expire_addressee t addressee ready =
    let h = step_items-without ready t.opts.file_chunk_size addressee t.ofile_pool in
    (
      ap (λ r. r.0) h,
      ((step_items ready t.opts.file_chunk_size t.ofile_pool).1, refl, ap (λ r. t.log ++ r.1) h),
    )

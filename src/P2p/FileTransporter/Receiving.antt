-- ===== src/P2p/FileTransporter/Receiving.antt =====
-- A chunk that arrives at its place extends what the receiver has of the file, and the end of the file
-- makes it complete.
use net_lib.P2p.FileTransporter.{
  FilePacket, Event, Desc, Files, Transporter, file_chunk, file_end, file_success, ready_send,
  download_progress, download_complete, set_file,
}
use net_lib.P2p.FileTransporter.Incoming.{
  write_at, write_offset, progress_events, pass_download_progress, commit_chunk, process_file_chunk,
  commit_incoming_file, listing, make_targetfilepath, transient, process_file_data,
}
use net_lib.Prelude.Dict.{find, erase, find-erase}
use net_lib.Prelude.{
  ℕ, zero, suc, ◌+◌, ◌-◌, ◌^◌, ◌≤◌, ◌<◌, ◌≡◌, refl, sym, ap, ◌∙◌, arith, List, [], ◌∷◌, ◌++◌,
  append_assoc, append-nil, Option, none, some, ltb, ◌==◌, ==_self, ==_iff, take_all, Bool-cases,
  inl, inr, length, length-append, length-take, length-drop, take, drop, take_prefix,
  take-length-append, Bytes, All, Outcome, done,
}

take-nil {ℓ} : {A : Type ℓ} (n : ℕ) → take {A = A} n [] ≡ []
take-nil zero = refl
take-nil (suc n) = refl

take_add {ℓ} :
    {A : Type ℓ} (m n : ℕ) (xs : List A) → take (m + n) xs ≡ take m xs ++ take n (drop m xs)
take_add zero n xs = ap (λ k. take k xs) (omega arith)
take_add (suc m) n [] = let e : suc (m + n) ≡ suc m + n = omega arith in rw (← e) (sym (take-nil n))
take_add (suc m) n (x ∷ xs) =
    let e : suc (m + n) ≡ suc m + n = omega arith in rw (← e) (ap (◌∷◌ x) (take_add m n xs))

-- The front of the file, as far as an offset, and no more bytes than the file has.
pub record IsFront (file : Bytes) (offset : ℕ) (bytes : Bytes) : Type 0 where
  pub front : take offset bytes ≡ take offset file
  pub enough : offset ≤ length bytes
  pub fits : length bytes ≤ length file

pub listing-none :
    (targets : Files Bytes) (p n : ℕ) → listing targets p n ≡ none → targets p n ≡ none
listing-none targets p n free = elim (Bool-cases (n == transient)) [
  | inl e ↦ (let there : listing targets p n ≡ some [] = rw e refl in cc)
  | inr e ↦ (let same : listing targets p n ≡ targets p n = rw e refl in sym same ∙ free)
]

module _ (file : Bytes) (count offset : ℕ) where
  abbrev chunk : Bytes
  chunk = take count (drop offset file)

  chunk_again : take (length chunk) (drop offset file) ≡ chunk
  chunk_again = sym (
      take_prefix count (drop offset file) []
      ∙ ap (take (length chunk)) (append-nil (drop offset file)))

  write_at-IsFront :
      (bytes : Bytes)
      → IsFront file offset bytes
      → IsFront file (offset + length chunk) (write_at offset chunk bytes)
  unfolding write_at
  write_at-IsFront bytes f =
      let no_gap : offset - length bytes ≡ 0 = omega (arith, f.enough) in
      let rest = drop (offset + length chunk) bytes in
      let begun : length (take offset bytes) ≡ offset =
        omega (arith, length-take offset bytes, f.enough) in
      let l : length (take offset bytes ++ chunk) ≡ offset + length chunk =
        omega (arith, length-append (take offset bytes) chunk) in
      let written : take (offset + length chunk) (take offset bytes ++ (chunk ++ rest))
          ≡ take offset bytes ++ chunk =
        rw (l, append_assoc (take offset bytes) chunk rest) at
          (take-length-append (take offset bytes ++ chunk) rest) in
      let total : length (take offset bytes ++ (chunk ++ rest))
          ≡ offset + (length chunk + length rest) =
        omega
          (arith, length-append (take offset bytes) (chunk ++ rest), length-append chunk rest) in
      rw no_gap (record {
        front =
            written
            ∙ ap (λ x. x ++ chunk) f.front
            ∙ sym (take_add offset (length chunk) file ∙ ap (◌++◌ (take offset file)) chunk_again);
        enough = omega arith;
        fits = omega (
          arith,
          f.fits,
          length-drop (offset + length chunk) bytes,
          length-take count (drop offset file),
          length-drop offset file,
        );
      })

pub set_file_self :
    {V : Type 0} (files : Files V) (p f : ℕ) (v : Option V) → set_file files p f v p f ≡ v
set_file_self files p f v = rw (==_self p, ==_self f) refl

abbrev pub IsProgress : Event → Type 0
IsProgress (download_progress p f downloaded total) = Unit
IsProgress other = ⊥

-- The receiver has the file of a sender as far as an offset, and knows its size and name.
pub record Holds (sender fileid : ℕ) (file : Bytes) (name offset : ℕ) (t : Transporter)
    : Type 0 where
  pub item : find fileid t.ifile_pool ≡ some (record { addresser = sender; filesize = length file })
  pub desc : Desc
  pub has_desc : t.descs sender fileid ≡ some desc
  pub named : desc.filename ≡ name
  pub sized : desc.filesize ≡ length file
  pub at_offset : desc.offset ≡ offset
  pub bytes : Bytes
  pub has_data : t.datas sender fileid ≡ some bytes
  pub front : IsFront file offset bytes

module _ (percents : ℕ → ℕ → ℕ) where
  progress_events-All :
      (t : Transporter) (a f size last offset : ℕ)
      → All IsProgress (progress_events percents t a f size last offset)
  unfolding progress_events
  progress_events-All t a f size last offset = elim (Bool-cases (ltb 0 size)) [
    | inr empty ↦ rw empty tt
    | inl some_size ↦
        elim (Bool-cases
          (pass_download_progress percents t.opts.download_progress_granularity size last offset)) [
            | inl pass ↦ rw (some_size, pass) (tt, tt)
            | inr quiet ↦ rw (some_size, quiet) tt
          ]
  ]

  module _ (numbered : ℕ → ℕ → ℕ) (unique : ℕ → ℕ) (open_file : ℕ → Option Bytes)
      (sender fileid : ℕ) (file : Bytes) (name : ℕ) where
    after_chunk :
        (count offset : ℕ)
        → length file < 2 ^ 31
        → offset ≤ length file
        → (d : Desc) → d.offset ≡ offset
        → (write_offset (offset + length (take count (drop offset file))) d).offset
          ≡ offset + length (take count (drop offset file))
    unfolding write_offset
    after_chunk count offset short le d e =
        let l = length (take count (drop offset file)) in
        let fits : offset + l ≤ length file =
          omega (arith, length-take count (drop offset file), length-drop offset file) in
        rw e (omega arith)

    abbrev receive_packet : Transporter → FilePacket → Outcome Transporter
    receive_packet t packet =
        process_file_data percents numbered unique open_file t sender fileid packet

    pub receive_chunk :
        (t : Transporter) (count offset : ℕ)
        → length file < 2 ^ 31
        → Holds sender fileid file name offset t
        → (t' : Transporter) × (ps : List Event) × (receive_packet t
              (file_chunk offset (take count (drop offset file)))
            ≡ done t')
          × Holds sender fileid file name (offset + length (take count (drop offset file))) t'
          × (t'.targets ≡ t.targets)
          × (t'.log ≡ t.log ++ ps)
          × All IsProgress ps
    unfolding process_file_data process_file_chunk commit_chunk write_offset
    receive_chunk t count offset short h =
        let bytes = take count (drop offset file) in
        let after = offset + length bytes in
        let ps = progress_events percents t sender fileid (length file) offset after in
        let written = write_at offset bytes h.bytes in
        let d = write_offset after h.desc in
        (
          record t {
            datas = set_file t.datas sender fileid (some written);
            descs = set_file t.descs sender fileid (some d);
            log = t.log ++ ps;
          },
          ps,
          rw (h.item, commit_chunk, h.has_data, h.has_desc) refl,
          record {
            item = h.item;
            desc = d;
            has_desc = set_file_self t.descs sender fileid (some d);
            named = h.named;
            sized = h.sized;
            at_offset =
                after_chunk count offset short (omega (arith, h.front.enough, h.front.fits)) h.desc
                  h.at_offset;
            bytes = written;
            has_data = set_file_self t.datas sender fileid (some written);
            front = write_at-IsFront file count offset h.bytes h.front;
          },
          refl,
          refl,
          progress_events-All t sender fileid (length file) offset after,
        )

    -- The file has become complete under its name; nothing of the transfer is left.
    pub record IsComplete (t t' : Transporter) : Type 0 where
      pub target : t'.targets sender name ≡ some file
      pub others : (p n : ℕ) (b : Bytes) → t.targets p n ≡ some b → t'.targets p n ≡ some b
      pub no_item : find fileid t'.ifile_pool ≡ none
      pub no_desc : t'.descs sender fileid ≡ none
      pub no_data : t'.datas sender fileid ≡ none

    kept :
        (targets : Files Bytes) (p n : ℕ) (b : Bytes)
        → targets sender name ≡ none
        → targets p n ≡ some b
        → set_file targets sender name (some file) p n ≡ some b
    kept targets p n b free has = elim (Bool-cases (p == sender)) [
      | inr other ↦ rw other has
      | inl same ↦ elim (Bool-cases (n == name)) [
        | inr other ↦ rw (same, other) has
        | inl here ↦
            let e : p ≡ sender = (==_iff p sender).0 same in
            let e' : n ≡ name = (==_iff n name).0 here in cc
      ]
    ]

    pub receive_end :
        (t : Transporter)
        → Holds sender fileid file name (length file) t
        → listing t.targets sender name ≡ none
        → (t' : Transporter) × (receive_packet t file_end ≡ done t')
          × IsComplete t t'
          × (t'.log
              ≡ t.log
                ++ (ready_send sender fileid file_success
                    ∷ download_complete sender fileid name
                    ∷ []))
    unfolding process_file_data commit_incoming_file make_targetfilepath
    receive_end t h free =
        let whole : h.bytes ≡ file =
          sym (take_all (length file) h.bytes h.front.fits)
          ∙ h.front.front
          ∙ take_all (length file) file (omega arith) in
        let log =
          t.log
          ++ (ready_send sender fileid file_success ∷ download_complete sender fileid name ∷ []) in
        (
          record t {
            ifile_pool = erase fileid t.ifile_pool;
            descs = set_file t.descs sender fileid none;
            dones = set_file t.dones sender fileid (some h.desc);
            datas = set_file t.datas sender fileid none;
            targets = set_file t.targets sender name (some file);
            log = log;
          },
          rw (h.item, commit_incoming_file, h.has_desc, h.named, free, h.has_data, whole) refl,
          record {
            target = set_file_self t.targets sender name (some file);
            others =
                λ p n b has. kept t.targets p n b (listing-none t.targets sender name free) has;
            no_item = find-erase fileid fileid t.ifile_pool ∙ rw (==_self fileid) refl;
            no_desc = set_file_self t.descs sender fileid none;
            no_data = set_file_self t.datas sender fileid none;
          },
          refl,
        )

-- ===== src/P2p/FileTransporter/Transfer.antt =====
-- A file that is requested chunk by chunk arrives whole: the sending and the receiving transporter
-- together, as the engines between them carry their packets.
use net_lib.P2p.FileTransporter.{
  FilePacket, Event, OfileItem, Transporter, file_chunk, file_end, file_success, ready_send,
  download_complete, read_chunk,
}
use net_lib.P2p.FileTransporter.Incoming.{listing, process_file_data}
use net_lib.P2p.FileTransporter.Receiving.{
  Holds, IsProgress, IsComplete, receive_chunk, receive_end,
}
use net_lib.P2p.FileTransporter.Rounds.{send_round, round_none, round_chunk, round_end}
use net_lib.Prelude.{
  ℕ, zero, suc, ◌+◌, ◌-◌, ◌^◌, ◌≤◌, ◌<◌, ◌≡◌, refl, sym, ap, ◌∙◌, arith, List, [], ◌∷◌, ◌++◌,
  append_assoc, Option, none, true, false, Bool-cases, inl, inr, length, length-take, length-drop,
  take, drop, is_nil, min, if◌then◌else◌, Bytes, All, All-append, Outcome, done, fails, out_of_fuel,
  ◌>>=◌, subst,
}

chunk_of :
    (item : OfileItem) (count : ℕ) (file : Bytes)
    → item.content ≡ file
    → read_chunk item count ≡ take count (drop item.position file)
unfolding read_chunk
chunk_of item count file e = ap (λ b. take count (drop item.position b)) e

nil_length : (xs : Bytes) → is_nil xs ≡ true → length xs ≡ 0
nil_length [] e = refl
nil_length (x ∷ xs) e = cc

some_length : (xs : Bytes) → is_nil xs ≡ false → 0 < length xs
some_length [] e = cc
some_length (x ∷ xs) e = omega arith

module _ (percents numbered : ℕ → ℕ → ℕ) (unique : ℕ → ℕ) (open_file : ℕ → Option Bytes)
    (sender receiver fileid : ℕ) where
  -- The packets that were sent, one after the other.
  unfoldable pub receive_all : Transporter → List Event → Outcome Transporter
  receive_all t [] = done t
  receive_all t (ready_send to f packet ∷ events) = do
    t' ← process_file_data percents numbered unique open_file t sender f packet
    receive_all t' events
  receive_all t (other ∷ events) = receive_all t events

  -- Rounds, as long as there is an upload.
  unfoldable pub transfer : ℕ → Transporter → Transporter → Outcome (Transporter × Transporter)
  transfer zero s t = fails out_of_fuel
  transfer (suc fuel) s t =
      let r = send_round receiver fileid s in
      let rest = (receive_all t r.1 >>= λ t'. transfer fuel r.0 t') in
      if r.2 then rest else done (s, t)

  transfer_over :
      (fuel : ℕ) (s t : Transporter) → s.ofile_pool ≡ [] → transfer (suc fuel) s t ≡ done (s, t)
  unfolding transfer
  transfer_over fuel s t e = rw (round_none receiver fileid s e) refl

  transfer_step :
      (fuel : ℕ) (s s' t t' : Transporter) (packet : FilePacket)
      → send_round receiver fileid s ≡ (s', ready_send receiver fileid packet ∷ [], true)
      → process_file_data percents numbered unique open_file t sender fileid packet ≡ done t'
      → transfer (suc fuel) s t ≡ transfer fuel s' t'
  unfolding transfer receive_all
  transfer_step fuel s s' t t' packet round taken = rw (round, taken) refl

  module _ (file : Bytes) (name : ℕ) (short : length file < 2 ^ 31) where
    -- What becomes of both.
    pub record IsTransferred (s s' t t' : Transporter) : Type 0 where
      pub no_upload : s'.ofile_pool ≡ []
      pub complete : IsComplete percents numbered unique open_file sender fileid file name t t'
      pub progress : List Event
      pub only_progress : All IsProgress progress
      pub reported :
          t'.log
          ≡ t.log
            ++ (progress
                ++ (ready_send sender fileid file_success
                    ∷ download_complete sender fileid name
                    ∷ []))

    IsTransferred-step :
        (s s1 s' t t1 t' : Transporter) (ps : List Event)
        → t1.targets ≡ t.targets
        → t1.log ≡ t.log ++ ps
        → All IsProgress ps
        → IsTransferred s1 s' t1 t'
        → IsTransferred s s' t t'
    IsTransferred-step s s1 s' t t1 t' ps targets log progress r =
        let done_events =
          ready_send sender fileid file_success ∷ download_complete sender fileid name ∷ [] in
        record {
          no_upload = r.no_upload;
          complete = record {
            target = r.complete.target;
            others = λ p n b has. r.complete.others p n b (ap (λ f. f p n) targets ∙ has);
            no_item = r.complete.no_item;
            no_desc = r.complete.no_desc;
            no_data = r.complete.no_data;
          };
          progress = ps ++ r.progress;
          only_progress = All-append IsProgress ps r.progress progress r.only_progress;
          reported =
              r.reported
              ∙ ap (λ l. l ++ (r.progress ++ done_events)) log
              ∙ append_assoc t.log ps (r.progress ++ done_events)
              ∙ ap (◌++◌ t.log) (sym (append_assoc ps r.progress done_events));
        }

    transfer_rounds :
        (fuel : ℕ) (s t : Transporter) (item : OfileItem)
        → 0 < s.opts.file_chunk_size
        → s.ofile_pool ≡ (fileid, item) ∷ []
        → item.addressee ≡ receiver
        → item.content ≡ file
        → item.position ≤ length file
        → length file - item.position + 2 ≤ fuel
        → Holds sender fileid file name item.position t
        → listing t.targets sender name ≡ none
        → (s' t' : Transporter) × (transfer fuel s t ≡ done (s', t')) × IsTransferred s s' t t'
    transfer_rounds zero s t item size upload to content le enough h free = absurd (omega arith)
    transfer_rounds (suc zero) s t item size upload to content le enough h free =
        absurd (omega arith)
    transfer_rounds (suc (suc fuel)) s t item size upload to content le enough h free =
        let o = item.position in
        let c = s.opts.file_chunk_size in
        let chunk = take c (drop o file) in
        let e : read_chunk item c ≡ chunk = chunk_of item c file content in
        let l : length chunk ≡ min c (length file - o) =
          omega (arith, length-take c (drop o file), length-drop o file) in
        elim (Bool-cases (is_nil chunk)) [
          | inl last ↦
              let all : o ≡ length file = omega (arith, nil_length chunk last) in
              let s' : Transporter = record s {
                ofile_pool = [];
                log = s.log ++ (ready_send receiver fileid file_end ∷ []);
              } in
              let (t', taken, complete, log) =
                receive_end percents numbered unique open_file sender fileid file name t
                  (subst (λ k. Holds sender fileid file name k t) all h) free in
              (
                s',
                t',
                transfer_step (suc fuel) s s' t t' file_end
                      (round_end receiver fileid s item upload to (rw e last)) taken
                    ∙ transfer_over fuel s' t' refl,
                record {
                  no_upload = refl;
                  complete = complete;
                  progress = [];
                  only_progress = tt;
                  reported = log;
                },
              )
          | inr more ↦
              let pos : 0 < length chunk = some_length chunk more in
              let item' : OfileItem = record item {
                chunk_requested = false;
                position = o + length chunk;
              } in
              let packet = ready_send receiver fileid (file_chunk o chunk) in
              let s1 : Transporter = record s {
                ofile_pool = (fileid, item') ∷ [];
                log = s.log ++ (packet ∷ []);
              } in
              let round : send_round receiver fileid s ≡ (s1, packet ∷ [], true) =
                rw e at (round_chunk receiver fileid s item upload to (rw e more)) in
              let (t1, ps, taken, h1, targets, log1, progress) =
                receive_chunk percents numbered unique open_file sender fileid file name t c o short
                  h in
              let (s', t', run, r) =
                transfer_rounds (suc fuel) s1 t1 item' size refl to content (omega arith)
                  (omega arith) h1 (ap (λ f. listing f sender name) targets ∙ free) in
              (
                s',
                t',
                transfer_step (suc fuel) s s1 t t1 (file_chunk o chunk) round taken ∙ run,
                IsTransferred-step s s1 s' t t1 t' ps targets log1 progress r,
              )
        ]

    -- A file of fewer than 2 ^ 31 bytes and a chunk size that is not zero; a sender whose only
    -- upload is the file, from some offset within it, to the receiver; a receiver that has the
    -- file as far as that offset, no more bytes than the whole file, and its size and name, and
    -- has neither a complete file nor the directory `transient` under that name: as many rounds
    -- as bytes are left, and two more, end the transfer. The upload is gone; the file has become
    -- complete under its name, byte for byte, beside all the files that were complete before; the
    -- item, description and data of the receiver are gone; and it reported progress only, and
    -- then the success to the sender and the completion, each once.
    pub transfer_lem :
        (s t : Transporter) (item : OfileItem)
        → 0 < s.opts.file_chunk_size
        → s.ofile_pool ≡ (fileid, item) ∷ []
        → item.addressee ≡ receiver
        → item.content ≡ file
        → item.position ≤ length file
        → Holds sender fileid file name item.position t
        → listing t.targets sender name ≡ none
        → (s' t' : Transporter) × (transfer (length file - item.position + 2) s t ≡ done (s', t'))
          × IsTransferred s s' t t'
    transfer_lem s t item size upload to content le h free =
        transfer_rounds (length file - item.position + 2) s t item size upload to content le
          (omega arith) h free

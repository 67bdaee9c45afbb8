-- ===== src/P2p/FileTransporter/Rounds.antt =====
-- A round of sending: the next chunk of an upload is requested, and the step sends it.
use net_lib.P2p.FileTransporter.{
  Event, OfileItem, Transporter, file_chunk, file_end, ready_send, read_chunk, mark_requested,
  request_chunk, step_item, step_items, step,
}
use net_lib.Prelude.{
  ℕ, ◌+◌, ◌≡◌, refl, ap, List, [], ◌∷◌, ◌++◌, Bool, true, false, ==_self, length, drop,
  drop-length-append, is_nil,
}

module _ (addressee fileid : ℕ) where
  -- The next chunk is requested and sent: the sender, what it sends, and whether there was an upload.
  unfoldable pub send_round : Transporter → Transporter × List Event × Bool
  send_round s =
      let q = request_chunk s addressee fileid in
      let t = step q.0 (λ _. true) in (t.0, drop (length q.0.log) t.0.log, q.1)

  pub round_none : (s : Transporter) → s.ofile_pool ≡ [] → (send_round s).2 ≡ false
  unfolding send_round request_chunk mark_requested
  round_none s e = rw e refl

  module _ (s : Transporter) (item : OfileItem) (upload : s.ofile_pool ≡ (fileid, item) ∷ [])
      (to : item.addressee ≡ addressee) where
    requested :
        request_chunk s addressee fileid
        ≡ (record s { ofile_pool = (fileid, record item { chunk_requested = true }) ∷ [] }, true)
    unfolding request_chunk mark_requested
    requested = rw (upload, ==_self fileid, to, ==_self addressee) refl

    pub round_chunk :
        let chunk = read_chunk item s.opts.file_chunk_size in
        let packet = ready_send addressee fileid (file_chunk item.position chunk) in
        is_nil chunk ≡ false
        → send_round s ≡ (
          record s {
            ofile_pool =
                (
                  fileid,
                  record item { chunk_requested = false; position = item.position + length chunk },
                )
                ∷ [];
            log = s.log ++ (packet ∷ []);
          },
          packet ∷ [],
          true,
        )
    unfolding send_round step step_items step_item read_chunk
    round_chunk more =
        let packet =
          ready_send item.addressee fileid
            (file_chunk item.position (read_chunk item s.opts.file_chunk_size)) in
        rw (requested, more)
          (rw (drop-length-append s.log (packet ∷ [])) (
            ap
              (λ (a : ℕ).
                let p =
                  ready_send a fileid
                    (file_chunk item.position (read_chunk item s.opts.file_chunk_size)) in
                (
                  record s {
                    ofile_pool =
                        (
                          fileid,
                          record item {
                            chunk_requested = false;
                            position =
                                item.position + length (read_chunk item s.opts.file_chunk_size);
                          },
                        )
                        ∷ [];
                    log = s.log ++ (p ∷ []);
                  },
                  p ∷ [],
                  true,
                ))
              to))

    pub round_end :
        is_nil (read_chunk item s.opts.file_chunk_size) ≡ true
        → send_round s ≡ (
          record s { ofile_pool = []; log = s.log ++ (ready_send addressee fileid file_end ∷ []) },
          ready_send addressee fileid file_end ∷ [],
          true,
        )
    unfolding send_round step step_items step_item read_chunk
    round_end last =
        rw (requested, last)
          (rw (drop-length-append s.log (ready_send item.addressee fileid file_end ∷ [])) (
            ap
              (λ (a : ℕ). (
                record s { ofile_pool = []; log = s.log ++ (ready_send a fileid file_end ∷ []) },
                ready_send a fileid file_end ∷ [],
                true,
              ))
              to))

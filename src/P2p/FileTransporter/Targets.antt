-- ===== src/P2p/FileTransporter/Targets.antt =====
-- A file that is complete gets a name that no file has.
use net_lib.P2p.FileTransporter.{
  Desc, Files, IfileItem, Transporter, file_success, ready_send, download_complete, set_file,
}
use net_lib.P2p.FileTransporter.Incoming.{
  listing, exists, search_name, last_chance, make_targetfilepath, commit_incoming_file,
}
use net_lib.P2p.FileTransporter.Receiving.{listing-none, set_file_self}
use net_lib.Prelude.Dict.{find, erase, find-erase}
use net_lib.Prelude.{
  ℕ, zero, suc, ◌+◌, ◌-◌, ◌^◌, ◌≤◌, ◌<◌, ◌≡◌, refl, ap, ◌∙◌, arith, [], ◌∷◌, ◌++◌, Option, none,
  some, false, Bool-cases, inl, inr, ◌==◌, ==_iff, ==_self, Bytes, done,
}

exists-none : (o : Option Bytes) → exists o ≡ false → o ≡ none
exists-none none e = refl
exists-none (some b) e = cc

module _ (numbered : ℕ → ℕ → ℕ) (unique : ℕ → ℕ) (targets : Files Bytes) (a name : ℕ) where
  search_name_free :
      (rounds counter path : ℕ)
      → exists (targets a path) ≡ false
      → search_name numbered unique rounds counter path targets a name ≡ path
  unfolding search_name
  search_name_free zero counter path e = refl
  search_name_free (suc rounds) counter path e = rw e refl

  search_name_lem :
      (rounds counter path k : ℕ)
      → counter ≤ k
      → k < counter + rounds
      → exists (targets a (numbered name k)) ≡ false
      → exists (targets a (search_name numbered unique rounds counter path targets a name)) ≡ false
  unfolding search_name
  search_name_lem zero counter path k le lt free = absurd (omega arith)
  search_name_lem (suc rounds) counter path k le lt free =
      elim (Bool-cases (exists (targets a path))) [
        | inr e ↦ rw e e
        | inl e ↦ rw e (elim (Bool-cases (counter == k)) [
          | inl here ↦
              let same : counter ≡ k = (==_iff counter k).0 here in
              let free' : exists (targets a (numbered name counter)) ≡ false =
                ap (λ n. exists (targets a (numbered name n))) same ∙ free in
              rw (search_name_free rounds (suc counter) (numbered name counter) free') free'
          | inr later ↦
              search_name_lem rounds (suc counter) (numbered name counter) k
                (ground (arith, (==_iff counter k).1)) (omega arith) free
        ])
      ]

  last_chance_free :
      (path : ℕ)
      → exists (targets a path) ≡ false
      → last_chance numbered unique targets a name path ≡ done path
  unfolding last_chance
  last_chance_free path e = rw e refl

  make_targetfilepath_lem :
      (k : ℕ)
      → 1 ≤ k
      → k < 2 ^ 31 - 1
      → targets a (numbered name k) ≡ none
      → (path : ℕ) × (make_targetfilepath numbered unique targets a name ≡ done path)
        × (targets a path ≡ none)
  unfolding make_targetfilepath
  make_targetfilepath_lem k pos lt free = elim (Bool-cases (exists (targets a name))) [
    | inr e ↦ (name, rw e refl, exists-none (targets a name) e)
    | inl e ↦
        let path = search_name numbered unique (2 ^ 31 - 2) 1 name targets a name in
        let found : exists (targets a path) ≡ false =
          search_name_lem (2 ^ 31 - 2) 1 name k pos (omega arith) (ap exists free) in
        (path, rw e (last_chance_free path found), exists-none (targets a path) found)
  ]

kept :
    (targets : Files Bytes) (a path p n : ℕ) (new b : Bytes)
    → targets a path ≡ none
    → targets p n ≡ some b
    → set_file targets a path (some new) p n ≡ some b
kept targets a path p n new b free has = elim (Bool-cases (p == a)) [
  | inr other ↦ rw other has
  | inl same ↦ elim (Bool-cases (n == path)) [
    | inr other ↦ rw (same, other) has
    | inl here ↦
        let e : p ≡ a = (==_iff p a).0 same in let e' : n ≡ path = (==_iff n path).0 here in cc
  ]
]

-- When a file is downloaded, has a description and data, and one of the first 2 ^ 31 - 2 numbered
-- names is free, whatever files there are: to commit it succeeds, the data becomes complete under
-- a name that neither a file nor the directory `transient` had, all files that were complete
-- before are still there, the success is sent and reported with that name, and the download and
-- its data are gone.
pub commit_incoming_file_lem :
    (numbered : ℕ → ℕ → ℕ) (unique : ℕ → ℕ) (t : Transporter) (addresser fileid k : ℕ)
    (item : IfileItem) (desc : Desc) (bytes : Bytes)
    → find fileid t.ifile_pool ≡ some item
    → t.descs addresser fileid ≡ some desc
    → t.datas addresser fileid ≡ some bytes
    → 1 ≤ k
    → k < 2 ^ 31 - 1
    → listing t.targets addresser (numbered desc.filename k) ≡ none
    → (t' : Transporter) × (path : ℕ) × (commit_incoming_file numbered unique t addresser fileid
        ≡ done t')
      × (listing t.targets addresser path ≡ none)
      × (t'.targets addresser path ≡ some bytes)
      × ((p n : ℕ) (b : Bytes) → t.targets p n ≡ some b → t'.targets p n ≡ some b)
      × (find fileid t'.ifile_pool ≡ none)
      × (t'.datas addresser fileid ≡ none)
      × (t'.log
          ≡ t.log
            ++ (ready_send addresser fileid file_success
                ∷ download_complete addresser fileid path
                ∷ []))
unfolding commit_incoming_file
commit_incoming_file_lem numbered unique t a f k item desc bytes there has_desc has_data pos lt
      free =
    let (path, made, new) =
      make_targetfilepath_lem numbered unique (listing t.targets) a desc.filename k pos lt free in
    (
      record t {
        ifile_pool = erase f t.ifile_pool;
        descs = set_file t.descs a f none;
        dones = set_file t.dones a f (some desc);
        datas = set_file t.datas a f none;
        targets = set_file t.targets a path (some bytes);
        log = t.log ++ (ready_send a f file_success ∷ download_complete a f path ∷ []);
      },
      path,
      rw (commit_incoming_file, there, has_desc, made, has_data) refl,
      new,
      set_file_self t.targets a path (some bytes),
      λ p n b has. kept t.targets a path p n bytes b (listing-none t.targets a path new) has,
      find-erase f f t.ifile_pool ∙ rw (==_self f) refl,
      set_file_self t.datas a f none,
      refl,
    )

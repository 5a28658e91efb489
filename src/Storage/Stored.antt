-- ===== src/Storage/Stored.antt =====
-- What a tree of crates/heimwatch-storage/src/db.rs holds, as records, and the invariant that each
-- value lies under the key of the record that it encodes.
use heimwatch.Prelude.{
  ℕ, ◌≤◌, ◌≡◌, refl, ap, sym, ◌∙◌, Bool, true, ◌&&◌, ◌||◌, List, [], ◌∷◌, some, arith, Bytes, codes,
  le_bytes, eq_bytes, eq_bytes_iff, ltb, leb, ◌==◌, u64_max, Bool-cases, inl, inr, ◌↔◌,
}
use heimwatch.Error.{ok}
use heimwatch.Core.Metrics.{MetricType, MetricRecord, metric_type}
use heimwatch.Sled.{Entries}
use heimwatch.Sled.Entries.{In, lookup-In, In-lookup}
use heimwatch.Keys.{range_start, range_end}
use heimwatch.Keys.Range.{in_range, same_type, in_range-encode_key}
use heimwatch.Storage.{Env, Rec, StorageLayer, Tree, Readable, key_of, scan, decode_all}
use heimwatch.Storage.Write.{insert_metric}

-- Whether a scan of a type from `start` to `end` meets a record: at `end` itself only if the name
-- does not come after `~`.
abbrev pub visible : {F32 : Type 0} → MetricType → ℕ → ℕ → MetricRecord F32 → Bool
visible mt start end r =
    same_type mt (metric_type r.payload)
    && leb start r.timestamp
    && (ltb r.timestamp end || (r.timestamp == end && le_bytes r.app_name (codes "~")))

some_eq : {A : Type 0} {a b : A} → some a ≡ some b → a ≡ b
some_eq h = cc

module _ (env : Env) where
  -- The record lies in the tree, under its key.
  abbrev pub Stored : Tree env → Rec env → Type 0
  Stored tree r =
      (v : Bytes) × (env.sled.get tree (key_of env r) ≡ some v) × (env.from_slice v ≡ some r)

  pub record IsWellFormed (tree : Tree env) : Type 0 where
    pub at :
        (k v : Bytes)
        → env.sled.get tree k ≡ some v
        → (r : Rec env) × (env.from_slice v ≡ some r) × (k ≡ key_of env r) × (r.timestamp ≤ u64_max)

  -- Inserting a record with a timestamp in `u64`, which serde_json can read back, into a well-
  -- formed tree keeps every value under the key of the record that it encodes.
  pub insert_metric-IsWellFormed :
      (r : Rec env) (s : StorageLayer env)
      → Readable env r
      → r.timestamp ≤ u64_max
      → IsWellFormed s.metrics
      → IsWellFormed (insert_metric env r s).metrics
  unfolding insert_metric
  insert_metric-IsWellFormed r s readable fits wf = record {
    at = λ k v h. elim (Bool-cases (eq_bytes (key_of env r) k)) [
      | inl e ↦
          let found = rw (env.sled.get-insert s.metrics (key_of env r) (env.to_vec r) k, e) at h in
          (
            r,
            ap env.from_slice (sym (some_eq found)) ∙ readable,
            sym ((eq_bytes_iff (key_of env r) k).0 e),
            fits,
          )
      | inr e ↦
          wf.at k v (rw (env.sled.get-insert s.metrics (key_of env r) (env.to_vec r) k, e) at h)
    ];
  }

  -- A scan of a tree in order.
  In-scan :
      (tree : Tree env) (mt : MetricType) (start end : ℕ) (k v : Bytes)
      → In (k, v) (scan env tree mt start end)
        ↔ ((in_range mt start end k ≡ true) × (env.sled.get tree k ≡ some v))
  unfolding scan
  In-scan tree mt start end k v =
      let lo = range_start mt start in
      let hi = range_end mt end in
      let found = env.sled.lookup-range tree lo hi k in
      (
        λ m.
            let l =
              In-lookup k v (env.sled.range tree lo hi) (env.sled.range-Ascending tree lo hi) m in
            (ground arith, ground arith),
        λ (inside, h). lookup-In k v (env.sled.range tree lo hi) (found ∙ rw inside h),
      )

  -- The entries decode to the records, one by one.
  abbrev Decodes : Entries → List (Rec env) → Type 0
  Decodes [] [] = Unit
  Decodes [] (r ∷ rs) = ⊥
  Decodes ((k, v) ∷ l) [] = ⊥
  Decodes ((k, v) ∷ l) (r ∷ rs) = (env.from_slice v ≡ some r) × Decodes l rs

  decode_all-Decodes : (l : Entries) (rs : List (Rec env)) → Decodes l rs → decode_all env l ≡ ok rs
  unfolding decode_all
  decode_all-Decodes [] [] d = refl
  decode_all-Decodes [] (r ∷ rs) d = absurd d
  decode_all-Decodes ((k, v) ∷ l) [] d = absurd d
  decode_all-Decodes ((k, v) ∷ l) (r ∷ rs) (e, d) = ground (arith, decode_all-Decodes l rs d)

  Decodes-exists :
      (l : Entries)
      → ((k v : Bytes) → In (k, v) l → (r : Rec env) × (env.from_slice v ≡ some r))
      → (rs : List (Rec env)) × Decodes l rs
  Decodes-exists [] h = ([], tt)
  Decodes-exists ((k, v) ∷ l) h =
      let (r, e) = h k v (inl refl) in
      let (rs, d) = Decodes-exists l (λ j w m. h j w (inr m)) in (r ∷ rs, (e, d))

  In-Decodes :
      (l : Entries) (rs : List (Rec env)) (r : Rec env)
      → Decodes l rs
      → In r rs
      → (k : Bytes) × (v : Bytes) × In (k, v) l × (env.from_slice v ≡ some r)
  In-Decodes [] [] r d m = absurd m
  In-Decodes [] (x ∷ rs) r d m = absurd d
  In-Decodes ((k, v) ∷ l) [] r d m = absurd d
  In-Decodes ((k, v) ∷ l) (x ∷ rs) r (e, d) (inl same) = (k, v, inl refl, e ∙ ap some same)
  In-Decodes ((k, v) ∷ l) (x ∷ rs) r (e, d) (inr m) =
      let (j, w, found, e') = In-Decodes l rs r d m in (j, w, inr found, e')

  Decodes-In :
      (l : Entries) (rs : List (Rec env)) (r : Rec env) (k v : Bytes)
      → Decodes l rs
      → In (k, v) l
      → env.from_slice v ≡ some r
      → In r rs
  Decodes-In [] rs r k v d m e = absurd m
  Decodes-In ((j, w) ∷ l) [] r k v d m e = absurd d
  Decodes-In ((j, w) ∷ l) (x ∷ rs) r k v (e', d) (inl same) e =
      let value : w ≡ v = ap (λ (p : Bytes × Bytes). p.1) same in
      inl (some_eq (sym e' ∙ ap env.from_slice value ∙ e))
  Decodes-In ((j, w) ∷ l) (x ∷ rs) r k v (e', d) (inr m) e = inr (Decodes-In l rs r k v d m e)

  module _ (tree : Tree env) (wf : IsWellFormed tree) where
    bounded :
        (r : Rec env) (k v : Bytes)
        → env.sled.get tree k ≡ some v
        → env.from_slice v ≡ some r
        → (k ≡ key_of env r) × (r.timestamp ≤ u64_max)
    bounded r k v got e =
        let (r', e', at_key, fits) = wf.at k v got in
        let same : r' ≡ r = some_eq (sym e' ∙ e) in (at_key ∙ ap (key_of env) same, rw same at fits)

    module _ (mt : MetricType) (start end : ℕ) (hs : start ≤ u64_max) (he : end ≤ u64_max) where
      meets :
          (r : Rec env)
          → r.timestamp ≤ u64_max
          → in_range mt start end (key_of env r) ≡ visible mt start end r
      meets r fits =
          in_range-encode_key mt (metric_type r.payload) start end r.timestamp r.app_name hs he fits

      scan_sound :
          (rs : List (Rec env)) (r : Rec env)
          → Decodes (scan env tree mt start end) rs
          → In r rs
          → Stored tree r × (visible mt start end r ≡ true)
      scan_sound rs r d m =
          let (k, v, found, e) = In-Decodes (scan env tree mt start end) rs r d m in
          let (inside, got) = (In-scan tree mt start end k v).0 found in
          let (at_key, fits) = bounded r k v got e in
          ((v, rw at_key at got, e), sym (meets r fits) ∙ rw at_key at inside)

      scan_complete :
          (rs : List (Rec env)) (r : Rec env)
          → Decodes (scan env tree mt start end) rs
          → Stored tree r
          → visible mt start end r ≡ true
          → In r rs
      scan_complete rs r d (v, got, e) seen =
          let (_, fits) = bounded r (key_of env r) v got e in
          Decodes-In (scan env tree mt start end) rs r (key_of env r) v d
            ((In-scan tree mt start end (key_of env r) v).1 (meets r fits ∙ seen, got)) e

      all_decode :
          (k v : Bytes)
          → In (k, v) (scan env tree mt start end)
          → (r : Rec env) × (env.from_slice v ≡ some r)
      all_decode k v m =
          let (r, e, _, _) = wf.at k v ((In-scan tree mt start end k v).0 m).1 in (r, e)

      -- A scan of a well-formed tree succeeds, and returns exactly the stored records that it meets.
      pub decode_all-scan :
          (rs : List (Rec env)) × (decode_all env (scan env tree mt start end) ≡ ok rs)
          × ((r : Rec env) → In r rs ↔ (Stored tree r × (visible mt start end r ≡ true)))
      decode_all-scan =
          let (rs, d) = Decodes-exists (scan env tree mt start end) all_decode in
          (
            rs,
            decode_all-Decodes (scan env tree mt start end) rs d,
            λ r. (scan_sound rs r d, λ (stored, seen). scan_complete rs r d stored seen),
          )

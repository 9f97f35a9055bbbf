-- ===== src/Inventory/Numbers.antt =====
-- crates/app/src/remote_inventory.rs: proofs about the numbers of a walk and the table that takes
-- them in.
use terrasync_rs.Base.{
  ℕ, suc, ◌+◌, ◌≤◌, ◌<◌, false, Option, none, some, List, [], ◌∷◌, ◌++◌, length, append-nil, All,
  All-append, ◌==◌, ==_iff, if-cases, ◌≡◌, ◌⊎◌, refl, sym, ap, ◌∙◌, subst, inl, inr, arith,
}
use terrasync_rs.Inventory.{
  NdxEntry, DirPageResult, NdxEvent, page, error, done, Entry, TraversalItem, entry,
  directory_listed, failure, observation_failure, other, Delivery, item, broken, Walk, new_walk,
  max_i32, counted, indexed, next_index, send, sort_by_name, received, listed, step, finished,
  directory_pages, NdxTable, new_table, ingest, ingest_page, find, get,
}

module _ {I : Type 0} where
  abbrev pub pages_of : List (NdxEvent I) → List (DirPageResult I)
  pages_of [] = []
  pages_of (page p ∷ events) = p ∷ pages_of events
  pages_of (error path reason ∷ events) = pages_of events
  pages_of (done ∷ events) = pages_of events

  -- Entries with the numbers from `lo` on.
  abbrev IsNumbered : ℕ → List (NdxEntry I) → Type 0
  IsNumbered lo [] = Unit
  IsNumbered lo (e ∷ es) = (e.ndx ≡ lo) × IsNumbered (suc lo) es

  -- A page with the numbers from `lo` on: its files, its directories, and its gap.
  abbrev IsPage : ℕ → DirPageResult I → Type 0
  IsPage lo p =
      IsNumbered lo p.files
      × IsNumbered (lo + length p.files) p.subdirs
      × (p.gap_ndx ≡ lo + length p.files + length p.subdirs)

  abbrev Chained : ℕ → List (DirPageResult I) → ℕ → Type 0
  Chained lo [] hi = lo ≡ hi
  Chained lo (p ∷ ps) hi = IsPage lo p × Chained (suc p.gap_ndx) ps hi

  Chained-append :
      (lo mid : ℕ) (ps : List (DirPageResult I)) (p : DirPageResult I)
      → Chained lo ps mid
      → IsPage mid p
      → Chained lo (ps ++ p ∷ []) (suc p.gap_ndx)
  Chained-append lo mid [] p e is = (subst (λ n. IsPage n p) (sym e) is, refl)
  Chained-append lo mid (q ∷ qs) p c is = (c.0, Chained-append (suc q.gap_ndx) mid qs p c.1 is)

  next_index-le : (lo : ℕ) (xs : List I) → lo ≤ max_i32 → lo ≤ next_index lo xs
  unfolding next_index
  next_index-le lo [] le = omega arith
  next_index-le lo (x ∷ xs) le = omega (arith, next_index-le (counted lo) xs (omega arith))

  next_index-max : (lo : ℕ) (xs : List I) → lo ≤ max_i32 → next_index lo xs ≤ max_i32
  unfolding next_index
  next_index-max lo [] le = le
  next_index-max lo (x ∷ xs) le = next_index-max (counted lo) xs (omega arith)

  -- Below the largest number nothing saturates.
  indexed-IsNumbered :
      (lo : ℕ) (xs : List I)
      → lo ≤ max_i32
      → next_index lo xs < max_i32
      → IsNumbered lo (indexed lo xs)
        × (length (indexed lo xs) ≡ length xs)
        × (next_index lo xs ≡ lo + length xs)
  unfolding indexed next_index
  indexed-IsNumbered lo [] le below = (tt, refl, omega arith)
  indexed-IsNumbered lo (x ∷ xs) le below =
      let up : counted lo ≡ suc lo =
        omega (arith, below, next_index-le (counted lo) xs (omega arith)) in
      let rest = indexed-IsNumbered (counted lo) xs (omega arith) below in
      (
        (refl, subst (λ n. IsNumbered n (indexed (counted lo) xs)) up rest.0),
        omega (arith, rest.1),
        omega (arith, rest.2, up),
      )

  pages_of-append :
      (events more : List (NdxEvent I))
      → pages_of (events ++ more) ≡ pages_of events ++ pages_of more
  pages_of-append [] more = refl
  pages_of-append (page p ∷ events) more = ap (◌∷◌ p) (pages_of-append events more)
  pages_of-append (error path reason ∷ events) more = pages_of-append events more
  pages_of-append (done ∷ events) more = pages_of-append events more

  -- The numbers so far are consecutive, unless they have reached the largest.
  record Numbered (w : Walk I) : Type 0 where
    bound : w.next ≤ max_i32
    chain : w.next < max_i32 → Chained 0 (pages_of w.sent) w.next

  send-Numbered :
      (w : Walk I) (path reason : List ℕ) → Numbered w → Numbered (send (error path reason) w)
  unfolding send
  send-Numbered w path reason n = record {
    bound = n.bound;
    chain = λ below.
        subst (λ ps. Chained 0 ps w.next)
          (sym (pages_of-append w.sent (error path reason ∷ []) ∙ append-nil (pages_of w.sent)))
          (n.chain below);
  }

module _ {I : Type 0} (name : I → List ℕ) where
  received-next :
      (e : Entry I) (versions : Option (List I)) (w : Walk I)
      → ((received name e versions w).next ≡ w.next) × ((received name e versions w).sent ≡ w.sent)
  unfolding received
  received-next e (some versions) w = (refl, refl)
  received-next e none w =
      if-cases (λ (v : Walk I). (v.next ≡ w.next) × (v.sent ≡ w.sent)) e.is_dir _ _
        (λ dir. (refl, refl)) (λ file. (refl, refl))

  listed-Numbered : (path : List ℕ) (w : Walk I) → Numbered w → Numbered (listed name path w)
  unfolding listed send
  listed-Numbered path w n =
      let files = sort_by_name name w.files in
      let subdirs = sort_by_name name w.subdirs in
      let middle = next_index w.next files in
      let gap = next_index middle subdirs in
      let low = next_index-le w.next files n.bound in
      let mid = next_index-max w.next files n.bound in
      let high = next_index-le middle subdirs mid in
      let top = next_index-max middle subdirs mid in
      let made : DirPageResult I = record {
        dir_path = path;
        ndx_start = w.next;
        files = indexed w.next files;
        subdirs = indexed middle subdirs;
        gap_ndx = gap;
      } in
      record {
        bound = omega arith;
        chain = λ below.
            let below_gap : gap < max_i32 = omega (arith, below, top) in
            let one = indexed-IsNumbered w.next files n.bound (omega (arith, below_gap, high)) in
            let two = indexed-IsNumbered middle subdirs mid below_gap in
            let at : suc gap ≡ counted gap = omega (arith, below) in
            let start : middle ≡ w.next + length (indexed w.next files) =
              omega (arith, one.1, one.2) in
            subst (λ ps. Chained 0 ps (counted gap)) (sym (pages_of-append w.sent (page made ∷ [])))
              (subst (λ m. Chained 0 (pages_of w.sent ++ made ∷ []) m) at
                (Chained-append 0 w.next (pages_of w.sent) made
                  (n.chain (omega (arith, low, high, below_gap)))
                  (
                    one.0,
                    subst (λ m. IsNumbered m (indexed middle subdirs)) start two.0,
                    omega (arith, one.1, one.2, two.1, two.2),
                  )));
      }

  step-Numbered : (x : TraversalItem I) (w : Walk I) → Numbered w → Numbered (step name x w)
  unfolding step
  step-Numbered (entry e) w n =
      let same = received-next e e.versions w in
      record {
        bound = subst (λ m. m ≤ max_i32) (sym same.0) n.bound;
        chain = λ below.
            subst (λ m. Chained 0 (pages_of (received name e e.versions w).sent) m) (sym same.0)
              (subst (λ events. Chained 0 (pages_of events) w.next) (sym same.1)
                (n.chain (subst (λ m. m < max_i32) same.0 below)));
      }
  step-Numbered (directory_listed path) w n = listed-Numbered path w n
  step-Numbered (failure path reason) w n = send-Numbered w path reason n
  step-Numbered (observation_failure path reason) w n = send-Numbered w path reason n
  step-Numbered other w n = n

  finished-Numbered :
      (outcome : Option (List ℕ)) (w : Walk I) → Numbered w → Numbered (finished name outcome w)
  unfolding finished send
  finished-Numbered (some reason) w n = send-Numbered w [] reason n
  finished-Numbered none w n = record {
    bound = n.bound;
    chain = λ below.
        subst (λ ps. Chained 0 ps w.next)
          (sym (pages_of-append w.sent (done ∷ []) ∙ append-nil (pages_of w.sent))) (n.chain below);
  }

  pages-Numbered :
      (outcome : Option (List ℕ)) (ds : List (Delivery I)) (w : Walk I)
      → Numbered w
      → Numbered (directory_pages name outcome ds w)
  unfolding directory_pages
  pages-Numbered outcome [] w n = finished-Numbered outcome w n
  pages-Numbered outcome (broken reason ∷ ds) w n = send-Numbered w [] reason n
  pages-Numbered outcome (item x ∷ ds) w n =
      pages-Numbered outcome ds (step name x w) (step-Numbered x w n)

module _ {I : Type 0} where
  abbrev pub ingest_pages : List (DirPageResult I) → NdxTable I → NdxTable I
  ingest_pages [] t = t
  ingest_pages (p ∷ ps) t = ingest_pages ps (ingest_page p t)

  -- The entry is found by its number, and the number stays below `hi`.
  abbrev Found : ℕ → NdxTable I → NdxEntry I → Type 0
  Found hi t e = (e.ndx < hi) × (get e.ndx t ≡ some e.entry)

  ingest-other :
      (lo k : ℕ) (es : List (NdxEntry I)) (t : NdxTable I)
      → IsNumbered lo es
      → (k < lo) ⊎ (lo + length es ≤ k)
      → get k (ingest es t) ≡ get k t
  unfolding ingest get
  ingest-other lo k [] t is out = refl
  ingest-other lo k (e ∷ es) t is out =
      let skips : (e.ndx == k) ≡ false = ground (arith, is.0) in
      ingest-other (suc lo) k es (record { entries = e ∷ t.entries }) is.1 (ground (arith, out))
      ∙ rw skips refl

  ingest-Found :
      (lo : ℕ) (es : List (NdxEntry I)) (t : NdxTable I)
      → IsNumbered lo es
      → All (Found (lo + length es) (ingest es t)) es
  unfolding ingest get
  ingest-Found lo [] t is = tt
  ingest-Found lo (e ∷ es) t is =
      let first : get e.ndx (record { entries = e ∷ t.entries }) ≡ some e.entry =
        rw ((==_iff e.ndx e.ndx).1 refl) refl in
      let kept =
        ingest-other (suc lo) e.ndx es (record { entries = e ∷ t.entries }) is.1
          (inl (omega (arith, is.0))) in
      let rest = ingest-Found (suc lo) es (record { entries = e ∷ t.entries }) is.1 in
      (
        (omega (arith, is.0), kept ∙ first),
        subst (λ n. All (Found n (ingest es (record { entries = e ∷ t.entries }))) es) (omega arith)
            rest,
      )

  Found-later :
      (hi later : ℕ) (t u : NdxTable I) (es : List (NdxEntry I))
      → hi ≤ later
      → ((k : ℕ) → k < hi → get k u ≡ get k t)
      → All (Found hi t) es
      → All (Found later u) es
  Found-later hi later t u [] le same found = tt
  Found-later hi later t u (e ∷ es) le same found = (
    (omega (arith, le, found.0.0), same e.ndx found.0.0 ∙ found.0.1),
    Found-later hi later t u es le same found.1,
  )

  page-other :
      (lo k : ℕ) (p : DirPageResult I) (t : NdxTable I)
      → IsPage lo p
      → (k < lo) ⊎ (p.gap_ndx ≤ k)
      → get k (ingest_page p t) ≡ get k t
  unfolding ingest_page
  page-other lo k p t is out =
      ingest-other (lo + length p.files) k p.subdirs (ingest p.files t) is.1
        (ground (arith, out, is.2))
      ∙ ingest-other lo k p.files t is.0 (ground (arith, out, is.2))

  page-Found :
      (lo : ℕ) (p : DirPageResult I) (t : NdxTable I)
      → IsPage lo p
      → All (Found p.gap_ndx (ingest_page p t)) (p.files ++ p.subdirs)
  unfolding ingest_page
  page-Found lo p t is =
      All-append (Found p.gap_ndx (ingest_page p t)) p.files p.subdirs
        (Found-later (lo + length p.files) p.gap_ndx (ingest p.files t) (ingest_page p t) p.files
          (omega (arith, is.2))
          (λ k below.
            ingest-other (lo + length p.files) k p.subdirs (ingest p.files t) is.1 (inl below))
          (ingest-Found lo p.files t is.0))
        (Found-later (lo + length p.files + length p.subdirs) p.gap_ndx (ingest_page p t)
          (ingest_page p t) p.subdirs (omega (arith, is.2)) (λ k below. refl)
          (ingest-Found (lo + length p.files) p.subdirs (ingest p.files t) is.1))

  pages-other :
      (lo hi k : ℕ) (ps : List (DirPageResult I)) (t : NdxTable I)
      → Chained lo ps hi
      → k < lo
      → get k (ingest_pages ps t) ≡ get k t
  pages-other lo hi k [] t c below = refl
  pages-other lo hi k (p ∷ ps) t c below =
      pages-other (suc p.gap_ndx) hi k ps (ingest_page p t) c.1 (omega (arith, c.0.2))
      ∙ page-other lo k p t c.0 (inl below)

  -- A page whose entries are found, each by its number, and whose gap is nobody's number.
  abbrev pub IsKept : NdxTable I → DirPageResult I → Type 0
  IsKept t p =
      All (λ e. get e.ndx t ≡ some e.entry) (p.files ++ p.subdirs) × (get p.gap_ndx t ≡ none)

  Found-get :
      (hi : ℕ) (t : NdxTable I) (es : List (NdxEntry I))
      → All (Found hi t) es
      → All (λ e. get e.ndx t ≡ some e.entry) es
  Found-get hi t [] found = tt
  Found-get hi t (e ∷ es) found = (found.0.1, Found-get hi t es found.1)

  pages-IsKept :
      (lo hi : ℕ) (ps : List (DirPageResult I)) (t : NdxTable I)
      → Chained lo ps hi
      → ((k : ℕ) → lo ≤ k → get k t ≡ none)
      → All (IsKept (ingest_pages ps t)) ps
  pages-IsKept lo hi [] t c free = tt
  pages-IsKept lo hi (p ∷ ps) t c free =
      let u = ingest_page p t in
      let later : (k : ℕ) → k < suc p.gap_ndx → get k (ingest_pages ps u) ≡ get k u =
        λ k below. pages-other (suc p.gap_ndx) hi k ps u c.1 below in
      (
        (
          Found-get p.gap_ndx (ingest_pages ps u) (p.files ++ p.subdirs) (
              Found-later p.gap_ndx p.gap_ndx u (ingest_pages ps u) (p.files ++ p.subdirs)
                (omega arith) (λ k below. later k (omega (arith, below))) (page-Found lo p t c.0)),
          later p.gap_ndx (omega arith)
              ∙ page-other lo p.gap_ndx p t c.0 (inr (omega arith))
              ∙ free p.gap_ndx (omega (arith, c.0.2)),
        ),
        pages-IsKept (suc p.gap_ndx) hi ps u c.1 (λ k above.
            page-other lo k p t c.0 (inr (omega (arith, above)))
            ∙ free k (omega (arith, above, c.0.2))),
      )

module _ {I : Type 0} (name : I → List ℕ) where
  -- As long as the numbers stay below the largest one, a table that takes in the pages of a walk,
  -- complete or broken off, finds every entry of every page by its number, and finds nothing
  -- under the number of a gap.
  pub directory_pages-get :
      (outcome : Option (List ℕ)) (ds : List (Delivery I))
      → (directory_pages name outcome ds new_walk).next < max_i32
      → let ps = pages_of (directory_pages name outcome ds new_walk).sent in
        All (IsKept (ingest_pages ps new_table)) ps
  unfolding new_table get find
  directory_pages-get outcome ds below =
      let numbered =
        pages-Numbered name outcome ds new_walk
          (record { bound = omega arith; chain = λ b. refl }) in
      pages-IsKept 0 _ (pages_of (directory_pages name outcome ds new_walk).sent) new_table
        (numbered.chain below) (λ k le. refl)

-- ===== src/Storage/Backing.antt =====
-- backend/app/services/file_service.py: the ready files and their objects in the storage, and the changes of
-- both that the methods are made of.
use ai_knowledge_hub.Base.{
  ℕ, ◌≤◌, ◌≡◌, refl, sym, subst, ◌∙◌, String, Bool, true, false, not, ◌&&◌, ◌||◌, Option, none,
  some, List, [], ◌∷◌, ◌++◌, any, all, count, find_first, str_eq, eq_refl, eq_iff, arith,
  Bool-cases, inl, inr, count-append,
}
use ai_knowledge_hub.Base.Table.{all-update, update, all-implied, all-append, count-update_same}
use ai_knowledge_hub.Knowledge.Tables.{FileStatus, FileResource, file_is}
use ai_knowledge_hub.Knowledge.Files.{file_clashes, create_file, is_ready, update_file_status}
use ai_knowledge_hub.Storage.{StorageProvider}
use ai_knowledge_hub.Storage.Service.{Files, is_here, set_status, deleted_object}

module _ {A : Type 0} where
  find-updated_any :
      (p test : A → Bool) (change : A → A) (q : A → Bool) (xs : List A) (x : A)
      → find_first p xs ≡ some x
      → test x ≡ true
      → q (change x) ≡ true
      → any q (update test change xs) ≡ true
  find-updated_any p test change q [] x h k l = absurd (cc)
  find-updated_any p test change q (y ∷ xs) x h k l = elim (Bool-cases (p y)) [
    | inl b ↦
        let same : y ≡ x = cc (rw b at h) in
        let tested : test y ≡ true = subst (λ z. test z ≡ true) (sym same) k in
        let changed : q (change y) ≡ true = subst (λ z. q (change z) ≡ true) (sym same) l in
        ground (arith, tested, changed)
    | inr b ↦ ground (arith, find-updated_any p test change q xs x)
  ]

  count-none :
      (p q : A → Bool) (xs : List A) → count p xs ≤ 0 → all (λ x. not (p x && q x)) xs ≡ true
  count-none p q [] h = refl
  count-none p q (x ∷ xs) h = ground (arith, count-none p q xs)

  any-count :
      (p q : A → Bool) (xs : List A) → any (λ x. p x && not (q x)) xs ≡ true → 1 ≤ count p xs
  any-count p q [] h = absurd (cc)
  any-count p q (x ∷ xs) h = ground (arith, any-count p q xs)

  -- The only row that satisfies one test does not satisfy another.
  sole :
      (p q : A → Bool) (xs : List A)
      → any (λ x. p x && not (q x)) xs ≡ true
      → count p xs ≤ 1
      → all (λ x. not (p x && q x)) xs ≡ true
  sole p q [] h k = refl
  sole p q (x ∷ xs) h k = ground (arith, sole p q xs, count-none p q xs, any-count p q xs)

  all-both :
      (p q r : A → Bool) (xs : List A)
      → ((x : A) → p x ≡ true → q x ≡ true → r x ≡ true)
      → all p xs ≡ true
      → all q xs ≡ true
      → all r xs ≡ true
  all-both p q r [] h k l = refl
  all-both p q r (x ∷ xs) h k l = ground (arith, h x, all-both p q r xs h)

  all-changed :
      (p q test : A → Bool) (change : A → A) (xs : List A)
      → ((x : A) → p x ≡ true → q x ≡ true)
      → ((x : A) → p x ≡ true → test x ≡ true → q (change x) ≡ true)
      → all p xs ≡ true
      → all q (update test change xs) ≡ true
  all-changed p q test change [] h k l = refl
  all-changed p q test change (x ∷ xs) h k l =
      ground (arith, h x, k x, l, all-changed p q test change xs h k)

  any-last : (p : A → Bool) (xs : List A) (x : A) → p x ≡ true → any p (xs ++ x ∷ []) ≡ true
  any-last p [] x h = ground (arith, h)
  any-last p (y ∷ xs) x h = ground (arith, any-last p xs x h)

  any-none :
      (p q : A → Bool) (xs : List A)
      → ((x : A) → p x ≡ true → q x ≡ true)
      → any q xs ≡ false
      → count p xs ≡ 0
  any-none p q [] h k = refl
  any-none p q (x ∷ xs) h k = ground (arith, h x, any-none p q xs h)

-- Two texts that are equal to one are equal.
str_eq-both : (a b c : String) → str_eq a c ≡ true → str_eq b c ≡ true → str_eq a b ≡ true
str_eq-both a b c h k = (eq_iff a b).1 ((eq_iff a c).0 h ∙ sym ((eq_iff b c).0 k))

module _ (storage : StorageProvider) (storage_provider_name bucket : String) where
  open storage use {Store, Content, has, put, delete, put-has, put-others, delete-others}

  -- A row whose object is that of a key, of this provider and bucket.
  abbrev pub is_at : String → FileResource → Bool
  is_at k f = is_here storage_provider_name bucket f && str_eq f.object_key k

  -- A row that is ready here has its object.
  abbrev pub is_backed : Store → FileResource → Bool
  is_backed objects f =
      not (is_here storage_provider_name bucket f && is_ready f) || has objects f.object_key

  -- No two rows of this provider and bucket have the same key, and every ready one has its object.
  pub record IsBacked (w : Files storage) : Type 0 where
    pub unique : (k : String) → count (is_at k) w.rows ≤ 1
    pub backed : all (is_backed w.objects) w.rows ≡ true

  -- The row of a key is there, and not ready.
  abbrev pub IsReleased : String → List FileResource → Type 0
  IsReleased k rows = any (λ f. is_at k f && not (is_ready f)) rows ≡ true

  -- A row that is not ready any more.
  pub set_status-IsBacked :
      (r : FileResource) (status : FileStatus) (reason : Option String) (deleted_at : Option ℕ)
      (w : Files storage)
      → file_is status FileStatus.ready ≡ false
      → IsBacked w
      → IsBacked (set_status storage r status reason deleted_at w)
  unfolding update_file_status
  set_status-IsBacked r status reason deleted_at w h sound = (record {
    unique = λ k.
        let change = λ (f : FileResource). record f {
          status = status;
          failure_reason = reason;
          deleted_at = deleted_at;
        } in
        subst (λ n. n ≤ 1)
          (sym (count-update_same (is_at k) (λ f. str_eq f.id r.id) change w.rows (λ f t. refl)))
          (sound.unique k);
    backed =
        all-update (is_backed w.objects) (is_backed w.objects) (λ f. str_eq f.id r.id)
          (λ f. record f { status = status; failure_reason = reason; deleted_at = deleted_at })
          w.rows (λ f k. k) (λ f k. ground (arith, h)) sound.backed;
  })

  pub set_status-IsReleased :
      (p : FileResource → Bool) (r : FileResource) (status : FileStatus) (reason : Option String)
      (deleted_at : Option ℕ) (w : Files storage)
      → file_is status FileStatus.ready ≡ false
      → find_first p w.rows ≡ some r
      → is_here storage_provider_name bucket r ≡ true
      → IsReleased r.object_key (set_status storage r status reason deleted_at w).rows
  unfolding update_file_status
  set_status-IsReleased p r status reason deleted_at w h found here =
      find-updated_any p (λ f. str_eq f.id r.id)
        (λ f. record f { status = status; failure_reason = reason; deleted_at = deleted_at })
        (λ f. is_at r.object_key f && not (is_ready f)) w.rows r found (eq_refl r.id)
        (ground (arith, h, eq_refl r.object_key))

  -- The object of a row that is not ready may go.
  pub deleted_object-IsBacked :
      (r : FileResource) (w : Files storage)
      → IsReleased r.object_key w.rows
      → IsBacked w
      → IsBacked (deleted_object storage r w)
  deleted_object-IsBacked r w released sound = (record {
    unique = sound.unique;
    backed =
        all-both (is_backed w.objects) (λ f. not (is_at r.object_key f && is_ready f))
          (is_backed (delete r.object_key w.objects).0) w.rows
          (λ f k l. ground (arith, delete-others r.object_key w.objects f.object_key)) sound.backed
          (sole (is_at r.object_key) is_ready w.rows released (sound.unique r.object_key));
  })

  pub put-IsBacked :
      (k : String) (c : Content) (w : Files storage)
      → IsBacked w
      → IsBacked (record w { objects = (put k c w.objects).0 })
  put-IsBacked k c w sound = (record {
    unique = sound.unique;
    backed =
        all-implied (is_backed w.objects) (is_backed (put k c w.objects).0) w.rows
          (λ f h. ground (arith, put-others k c w.objects f.object_key)) sound.backed;
  })

  is_at-clashes :
      (k : String) (r f : FileResource)
      → is_at k r ≡ true
      → is_at k f ≡ true
      → file_clashes r f ≡ true
  is_at-clashes k r f h l =
      let same_provider =
        str_eq-both f.storage_provider r.storage_provider storage_provider_name (ground arith)
          (ground arith) in
      let same_bucket = str_eq-both f.bucket r.bucket bucket (ground arith) (ground arith) in
      let same_key = str_eq-both f.object_key r.object_key k (ground arith) (ground arith) in
      ground (arith, same_provider, same_bucket, same_key)

  -- A new row, of a key and an id that no other row has.
  pub create_file-IsBacked :
      (r : FileResource) (w : Files storage) (rows : List FileResource)
      → is_ready r ≡ false
      → is_here storage_provider_name bucket r ≡ true
      → create_file r w.rows ≡ some rows
      → IsBacked w
      → IsBacked (record w { rows = rows })
  unfolding create_file
  create_file-IsBacked r w rows pending here h sound =
      elim (Bool-cases (any (file_clashes r) w.rows)) [
        | inl b ↦ absurd (cc (rw (create_file, b) at h))
        | inr b ↦
            let same : w.rows ++ r ∷ [] ≡ rows = cc (rw (create_file, b) at h) in
            subst (λ xs. IsBacked (record w { rows = xs })) same
              (record {
                unique = λ k. elim (Bool-cases (is_at k r)) [
                  | inl at ↦
                      let empty =
                        any-none (is_at k) (file_clashes r) w.rows (λ f t. is_at-clashes k r f at t)
                          b in
                      ground (arith, count-append (is_at k) w.rows (r ∷ []), empty)
                  | inr away ↦
                      ground (arith, count-append (is_at k) w.rows (r ∷ []), sound.unique k)
                ];
                backed =
                    all-append (is_backed w.objects) w.rows (r ∷ []) sound.backed
                      (ground (arith, pending));
              })
      ]

  -- The row of an id becomes ready when its object is there.
  pub ready-IsBacked :
      (r : FileResource) (w : Files storage)
      → all (λ f. not (str_eq f.id r.id) || str_eq f.object_key r.object_key) w.rows ≡ true
      → has w.objects r.object_key ≡ true
      → IsBacked w
      → IsBacked (set_status storage r FileStatus.ready none none w)
  unfolding update_file_status
  ready-IsBacked r w only there sound =
      let change = λ (f : FileResource). record f {
        status = FileStatus.ready;
        failure_reason = none;
        deleted_at = none;
      } in
      (record {
        unique = λ k.
            subst (λ n. n ≤ 1)
              (sym
                (count-update_same (is_at k) (λ f. str_eq f.id r.id) change w.rows (λ f t. refl)))
              (sound.unique k);
        backed =
            let own =
              λ (f : FileResource). not (str_eq f.id r.id) || str_eq f.object_key r.object_key in
            all-changed (λ f. is_backed w.objects f && own f) (is_backed w.objects)
              (λ f. str_eq f.id r.id) change w.rows (λ f k. ground arith)
              (λ f k t.
                let same : f.object_key ≡ r.object_key =
                  (eq_iff f.object_key r.object_key).0 (ground arith) in
                let stored : has w.objects f.object_key ≡ true =
                  subst (λ k. has w.objects k ≡ true) (sym same) there in
                ground (arith, stored))
              (all-both (is_backed w.objects) own (λ f. is_backed w.objects f && own f) w.rows
                (λ f k l. ground arith) sound.backed only);
      })

  pub create_file-IsReleased :
      (r : FileResource) (before rows : List FileResource)
      → is_ready r ≡ false
      → is_here storage_provider_name bucket r ≡ true
      → create_file r before ≡ some rows
      → IsReleased r.object_key rows
        × (all (λ f. not (str_eq f.id r.id) || str_eq f.object_key r.object_key) rows ≡ true)
  unfolding create_file
  create_file-IsReleased r before rows pending here h =
      elim (Bool-cases (any (file_clashes r) before)) [
        | inl b ↦ absurd (cc (rw (create_file, b) at h))
        | inr b ↦
            subst
              (λ xs.
                IsReleased r.object_key xs
                × (all (λ f. not (str_eq f.id r.id) || str_eq f.object_key r.object_key) xs ≡ true))
              (cc (rw (create_file, b) at h))
              (
                any-last (λ f. is_at r.object_key f && not (is_ready f)) before r
                    (ground (arith, pending, eq_refl r.object_key)),
                all-append (λ f. not (str_eq f.id r.id) || str_eq f.object_key r.object_key) before
                    (r ∷ []) (apart before b) (ground (arith, eq_refl r.object_key)),
              )
      ]
    where
      apart :
          (xs : List FileResource)
          → any (file_clashes r) xs ≡ false
          → all (λ f. not (str_eq f.id r.id) || str_eq f.object_key r.object_key) xs ≡ true
      apart [] k = refl
      apart (x ∷ xs) k = ground (arith, apart xs)

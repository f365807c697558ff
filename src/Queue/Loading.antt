-- ===== src/Queue/Loading.antt =====
-- commands/shared/queue-store.ts: the list of all messages holds those that the files hold and that are not too old.
use maw_js.Prelude.{
  ℕ, ◌≡◌, ◌↔◌, ◌⊎◌, inl, inr, refl, sym, subst, Bool, true, false, List, [], ◌∷◌, ◌++◌, Text, ◌===◌,
  ===_iff, Bool-cases, Memᴰ, head, tail, mem_of_cons, All, All-append,
}
use maw_js.Prelude.Dict.{Dict}
use maw_js.Names.{includes_text}
use maw_js.Queue.{
  PendingMessage, MessageJson, corrupt, unnamed, message_file, QueueDisk, is_expired, Listing,
  push_message, list_message, list_file, keep_if, list_files, insert_message, sort_messages,
  load_pending,
}

module _ (before : PendingMessage → PendingMessage → Bool) where
  mem-insert_message :
      (x m : PendingMessage) (ms : List PendingMessage)
      → Memᴰ x (insert_message before m ms)
      → (x ≡ m) ⊎ Memᴰ x ms
  mem-insert_message x m [] h = mem_of_cons x m [] h
  mem-insert_message x m (n ∷ ns) h = elim (Bool-cases (before n m)) [
    | inl e ↦ elim (mem_of_cons x n (insert_message before m ns) (simp (e) at h)) [
      | inl same ↦ inr (subst (λ y. Memᴰ y (n ∷ ns)) (sym same) head)
      | inr later ↦ elim (mem-insert_message x m ns later) [
        | inl same ↦ inl same
        | inr old ↦ inr (tail old)
      ]
    ]
    | inr e ↦ mem_of_cons x m (n ∷ ns) (simp (e) at h)
  ]

  mem_of_insert_message :
      (x m : PendingMessage) (ms : List PendingMessage)
      → (x ≡ m) ⊎ Memᴰ x ms
      → Memᴰ x (insert_message before m ms)
  mem_of_insert_message x m [] (inl same) = subst (λ y. Memᴰ y (m ∷ [])) (sym same) head
  mem_of_insert_message x m [] (inr old) = elim old [ ]
  mem_of_insert_message x m (n ∷ ns) (inl same) = elim (Bool-cases (before n m)) [
    | inl e ↦ simp (e) (tail (mem_of_insert_message x m ns (inl same)))
    | inr e ↦ simp (e) (subst (λ y. Memᴰ y (m ∷ n ∷ ns)) (sym same) head)
  ]
  mem_of_insert_message x m (n ∷ ns) (inr old) = elim (Bool-cases (before n m)) [
    | inl e ↦ elim (mem_of_cons x n ns old) [
      | inl same ↦ simp (e) (subst (λ y. Memᴰ y (n ∷ insert_message before m ns)) (sym same) head)
      | inr later ↦ simp (e) (tail (mem_of_insert_message x m ns (inr later)))
    ]
    | inr e ↦ simp (e) (tail old)
  ]

  mem-sort_messages :
      (x : PendingMessage) (ms : List PendingMessage) → Memᴰ x (sort_messages before ms) ↔ Memᴰ x ms
  mem-sort_messages x [] = (λ m. m, λ m. m)
  mem-sort_messages x (n ∷ ms) = (
    λ h. elim (mem-insert_message x n (sort_messages before ms) h) [
      | inl same ↦ subst (λ y. Memᴰ y (n ∷ ms)) (sym same) head
      | inr old ↦ tail ((mem-sort_messages x ms).0 old)
    ],
    λ h. elim (mem_of_cons x n ms h) [
      | inl same ↦ mem_of_insert_message x n (sort_messages before ms) (inl same)
      | inr old ↦
          mem_of_insert_message x n (sort_messages before ms) (inr ((mem-sort_messages x ms).1 old))
    ],
  )

  All-insert_message :
      (P : PendingMessage → Type 0) (m : PendingMessage) (ms : List PendingMessage)
      → P m
      → All P ms
      → All P (insert_message before m ms)
  All-insert_message P m [] p h = (p, _)
  All-insert_message P m (n ∷ ns) p h = elim (Bool-cases (before n m)) [
    | inl e ↦ simp (e) (h.0, All-insert_message P m ns p h.1)
    | inr e ↦ simp (e) (p, h)
  ]

  All-sort_messages :
      (P : PendingMessage → Type 0) (ms : List PendingMessage)
      → All P ms
      → All P (sort_messages before ms)
  All-sort_messages P [] h = _
  All-sort_messages P (m ∷ ms) h =
      All-insert_message P m (sort_messages before ms) h.0 (All-sort_messages P ms h.1)

module _ {ℓ} {A : Type ℓ} where
  mem-append_left : (x : A) (xs ys : List A) → Memᴰ x xs → Memᴰ x (xs ++ ys)
  mem-append_left x [] ys m = elim m [ ]
  mem-append_left x (_ ∷ xs) ys head = head
  mem-append_left x (_ ∷ xs) ys (tail m) = tail (mem-append_left x xs ys m)

  mem-append_last : (y : A) (xs : List A) → Memᴰ y (xs ++ (y ∷ []))
  mem-append_last y [] = head
  mem-append_last y (_ ∷ xs) = tail (mem-append_last y xs)

-- A message of that id is listed.
abbrev pub IsListed : List PendingMessage → Text → Type 0
IsListed out id = (m : PendingMessage) × Memᴰ m out × (m.id ≡ id)

-- What one file or one directory does to the list, where `P` holds of the messages that may be listed.
record Extends (P : PendingMessage → Type 0) (l l' : Listing) : Type 0 where
  pub sound : All P l.out → All P l'.out
  pub grows : (m : PendingMessage) → Memᴰ m l.out → Memᴰ m l'.out
  pub seen :
      ((id : Text) → includes_text id l.seen ≡ true → IsListed l.out id)
      → (id : Text) → includes_text id l'.seen ≡ true
      → IsListed l'.out id

Extends-refl : (P : PendingMessage → Type 0) (l : Listing) → Extends P l l
Extends-refl P l = record { sound = λ h. h; grows = λ m h. h; seen = λ h. h }

Extends-trans :
    (P : PendingMessage → Type 0) (a b c : Listing) → Extends P a b → Extends P b c → Extends P a c
Extends-trans P a b c first next = record {
  sound = λ h. next.sound (first.sound h);
  grows = λ m h. next.grows m (first.grows m h);
  seen = λ h. next.seen (first.seen h);
}

IsListed-push_message :
    (m : PendingMessage) (l : Listing)
    → ((id : Text) → includes_text id l.seen ≡ true → IsListed l.out id)
    → (id : Text) → includes_text id (push_message m l).seen ≡ true
    → IsListed (push_message m l).out id
IsListed-push_message m l known id h = elim (Bool-cases (m.id === id)) [
  | inl same ↦ (m, mem-append_last m l.out, (===_iff m.id id).0 same)
  | inr other ↦
      let (n, there, e) = known id (simp (other) at h) in
      (n, mem-append_left n l.out (m ∷ []) there, e)
]

Extends-push :
    (P : PendingMessage → Type 0) (m : PendingMessage) (l : Listing)
    → P m
    → Extends P l (push_message m l)
Extends-push P m l p = record {
  sound = λ h. All-append P l.out (m ∷ []) h (p, _);
  grows = λ n h. mem-append_left n l.out (m ∷ []) h;
  seen = IsListed-push_message m l;
}

list_message-Extends :
    (P : PendingMessage → Type 0) (m : PendingMessage) (is_seen expired : Bool) (l : Listing)
    → (expired ≡ false → P m)
    → Extends P l (list_message m is_seen expired l).1
list_message-Extends P m true expired l p = Extends-refl P l
list_message-Extends P m false true l p = Extends-refl P l
list_message-Extends P m false false l p = Extends-push P m l (p refl)

list_file-Extends :
    (P : PendingMessage → Type 0) (now : ℕ) (json : MessageJson) (l : Listing)
    → ((m : PendingMessage) → json ≡ message_file m → is_expired m now ≡ false → P m)
    → Extends P l (list_file now json l).1
list_file-Extends P now corrupt l p = Extends-refl P l
list_file-Extends P now unnamed l p = Extends-refl P l
list_file-Extends P now (message_file m) l p =
    list_message-Extends P m (includes_text m.id l.seen) (is_expired m now) l (p m refl)

list_files-Extends :
    (P : PendingMessage → Type 0) (now : ℕ) (files : Dict MessageJson) (l : Listing)
    → ((id : Text) (m : PendingMessage)
        → Memᴰ (id, message_file m) files
        → is_expired m now ≡ false
        → P m)
    → Extends P l (list_files now files l).1
list_files-Extends P now [] l p = Extends-refl P l
list_files-Extends P now ((id, json) ∷ files) l p =
    let l' = (list_file now json l).1 in
    Extends-trans P l l' (list_files now files l').1
      (list_file-Extends P now json l
        (λ m e. p id m (subst (λ j. Memᴰ (id, message_file m) ((id, j) ∷ files)) (sym e) head)))
      (list_files-Extends P now files l' (λ i m h. p i m (tail h)))

-- A message that is not too old is listed by its id, and its file stays.
list_message_lem :
    (m : PendingMessage) (b : Bool) (l : Listing)
    → (b ≡ true → IsListed l.out m.id)
    → ((list_message m b false l).0 ≡ true) × IsListed (list_message m b false l).1.out m.id
list_message_lem m true l known = (refl, known refl)
list_message_lem m false l known = (refl, (m, mem-append_last m l.out, refl))

-- That ids that were seen are listed.
abbrev IsKnown : Listing → Type 0
IsKnown l = (id : Text) → includes_text id l.seen ≡ true → IsListed l.out id

list_file_lem :
    (now : ℕ) (m : PendingMessage) (l : Listing)
    → IsKnown l
    → is_expired m now ≡ false
    → ((list_file now (message_file m) l).0 ≡ true)
      × IsListed (list_file now (message_file m) l).1.out m.id
list_file_lem now m l known fresh =
    simp (fresh) (list_message_lem m (includes_text m.id l.seen) l (known m.id))

mem-keep_if :
    (file : Text × MessageJson) (stays : Bool) (rest : Dict MessageJson) (x : Text × MessageJson)
    → Memᴰ x rest
    → Memᴰ x (keep_if file stays rest)
mem-keep_if file true rest x m = tail m
mem-keep_if file false rest x m = m

module _ (now : ℕ) where
  -- Any message may be listed.
  abbrev Anything : PendingMessage → Type 0
  Anything _ = Unit

  list_files_lem :
      (files : Dict MessageJson) (l : Listing) (id : Text) (m : PendingMessage)
      → IsKnown l
      → is_expired m now ≡ false
      → Memᴰ (id, message_file m) files
      → Memᴰ (id, message_file m) (list_files now files l).0
        × IsListed (list_files now files l).1.out m.id
  list_files_lem [] l id m known fresh here = elim here [ ]
  list_files_lem (_ ∷ files) l id m known fresh head =
      let (stays, (n, there, e)) = list_file_lem now m l known fresh in
      let l' = (list_file now (message_file m) l).1 in
      let later = list_files-Extends Anything now files l' (λ i k h f. _) in
      (
        subst
            (λ b.
              Memᴰ (id, message_file m)
                (keep_if (id, message_file m) b (list_files now files l').0))
            (sym stays) head,
        (n, later.grows n there, e),
      )
  list_files_lem ((name, json) ∷ files) l id m known fresh (tail there) =
      let (stays, l') = list_file now json l in
      let first = list_file-Extends Anything now json l (λ k e f. _) in
      let rest = list_files_lem files l' id m (first.seen known) fresh there in
      (
        mem-keep_if (name, json) stays (list_files now files l').0 (id, message_file m) rest.0,
        rest.1,
      )

-- The message stands in a file of one of the two directories.
abbrev pub HasFile : QueueDisk → PendingMessage → Type 0
HasFile d m = (id : Text) × (Memᴰ (id, message_file m) d.files ⊎ Memᴰ (id, message_file m) d.legacy)

abbrev pub IsCurrent : QueueDisk → (now : ℕ) → PendingMessage → Type 0
IsCurrent d now m = HasFile d m × (is_expired m now ≡ false)

module _ (before : PendingMessage → PendingMessage → Bool) (now : ℕ) (d : QueueDisk) where
  abbrev nothing : Listing
  nothing = record { seen = []; out = [] }

  abbrev in_files : Listing
  in_files = (list_files now d.files nothing).1

  abbrev in_both : Listing
  in_both = (list_files now d.legacy in_files).1

  files-Extends : Extends (IsCurrent d now) nothing in_files
  files-Extends =
      list_files-Extends (IsCurrent d now) now d.files nothing (λ id m h f. ((id, inl h), f))

  legacy-Extends : Extends (IsCurrent d now) in_files in_both
  legacy-Extends =
      list_files-Extends (IsCurrent d now) now d.legacy in_files (λ id m h f. ((id, inr h), f))

  IsKnown-nothing : IsKnown nothing
  IsKnown-nothing id h = cc

  current-IsListed :
      (m : PendingMessage)
      → IsCurrent d now m
      → HasFile (load_pending before now d).0 m × IsListed in_both.out m.id
  unfolding load_pending
  current-IsListed m ((id, inl here), fresh) =
      let (stays, (n, there, e)) =
        list_files_lem now d.files nothing id m IsKnown-nothing fresh here in
      ((id, inl stays), (n, legacy-Extends.grows n there, e))
  current-IsListed m ((id, inr here), fresh) =
      let (stays, listed) =
        list_files_lem now d.legacy in_files id m (files-Extends.seen IsKnown-nothing) fresh here in
      ((id, inr stays), listed)

  -- A message that a file of either directory holds and that is not too old keeps its file when all messages are
  -- loaded, and a message of its id is listed. Each message that is listed stands in a file and is not too old.
  pub load_pending_lem :
      (m : PendingMessage)
      → IsCurrent d now m
      → HasFile (load_pending before now d).0 m
        × IsListed (load_pending before now d).1 m.id
        × All (IsCurrent d now) (load_pending before now d).1
  unfolding load_pending
  load_pending_lem m current =
      let (stays, (n, there, e)) = current-IsListed m current in
      (
        stays,
        (n, (mem-sort_messages before n in_both.out).1 there, e),
        All-sort_messages before (IsCurrent d now) in_both.out
            (legacy-Extends.sound (files-Extends.sound _)),
      )

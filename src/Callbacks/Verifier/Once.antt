-- ===== src/Callbacks/Verifier/Once.antt =====
-- internal/app/callback/verifier.go: a nonce is accepted once.
use startlink.Base.{
  ℕ, ◌+◌, ◌*◌, ◌≤◌, ◌<◌, Bool, true, false, not, ◌&&◌, ◌||◌, List, [], ◌∷◌, some, leb, any,
  delete_where, ◌≡◌, refl, sym, ap, ◌∙◌, arith, inl, inr, Bool-cases, Option-cases,
}
use startlink.Domain.Text.{Text, text_eq, text_eq_refl, text_eq→eq, Number}
use startlink.Callbacks.Verifier.{
  Verifier, Crypto, Verdict, accepted, unauthorized, store_error, parse_int, in_skew, is_signed,
  nonce_key, Store, lives, set_nx, after_set, verify,
}

-- A request, with the instants at which the clock is read and the store asked, and the failure of the
-- latter.
pub record Request : Type 0 where
  pub now : ℕ
  pub later : ℕ
  pub fails : Bool
  pub timestamp : Text
  pub nonce : Text
  pub signature : Text
  pub body : Text

-- The verdict on a request, and what becomes of the store through many.
unfoldable pub receive : Verifier → Crypto → Request → Store → Verdict × Store
receive v c r store = verify v c r.now r.later r.fails r.timestamp r.nonce r.signature r.body store

unfoldable pub receive_all : Verifier → Crypto → List Request → Store → Store
receive_all v c [] store = store
receive_all v c (r ∷ rs) store = receive_all v c rs (receive v c r store).1

-- The store has the key up to an instant, or longer.
keeps : Text → ℕ → Store → Bool
keeps key until store = any (λ e. text_eq e.0 key && leb until e.1) store

keeps-delete :
    (key other : Text) (until : ℕ) (store : Store)
    → text_eq other key ≡ false
    → keeps key until store ≡ true
    → keeps key until (delete_where (λ e. text_eq e.0 other) store) ≡ true
unfolding keeps
keeps-delete key other until [] h k = cc
keeps-delete key other until (e ∷ store) h k = elim (Bool-cases (text_eq e.0 other)) [
  | inl same ↦
      let name = text_eq→eq e.0 other same in
      let differs : text_eq e.0 key ≡ false = ap (λ t. text_eq t key) name ∙ h in
      rw same (keeps-delete key other until store h (ground (arith, k, differs)))
  | inr differs ↦ ground (arith, differs, k, keeps-delete key other until store h)
]

-- A key that is kept and does not live any more was kept up to an earlier instant.
keeps-dead :
    (key : Text) (until now : ℕ) (store : Store)
    → keeps key until store ≡ true
    → any (lives key now) store ≡ false
    → until < now
unfolding keeps lives
keeps-dead key until now [] h k = cc
keeps-dead key until now (e ∷ store) h k = ground (arith, keeps-dead key until now store, h, k)

set_nx-keeps :
    (key other : Text) (until now ttl : ℕ) (store : Store)
    → keeps key until store ≡ true
    → keeps key until (set_nx other now ttl store).1 ≡ true
unfolding set_nx
set_nx-keeps key other until now ttl store h = elim (Bool-cases (any (lives other now) store)) [
  | inl alive ↦ rw alive h
  | inr dead ↦ rw dead (
      unfold keeps in
      elim (Bool-cases (text_eq other key)) [
        | inl same ↦
            let name = text_eq→eq other key same in
            let gone = ap (λ k. any (lives k now) store) (sym name) ∙ dead in
            ground (arith, same, keeps-dead key until now store h gone)
        | inr differs ↦ rw differs (keeps-delete key other until store differs h)
      ])
]

after_set-store : (r : Bool × Store) → (after_set r).1 ≡ r.1
unfolding after_set
after_set-store (true, store) = refl
after_set-store (false, store) = refl

module _ (v : Verifier) (c : Crypto) where
  receive-keeps :
      (key : Text) (until : ℕ) (r : Request) (store : Store)
      → keeps key until store ≡ true
      → keeps key until (receive v c r store).1 ≡ true
  unfolding receive verify
  receive-keeps key until r store h = elim (Bool-cases (not v.required)) [
    | inl off ↦ rw off h
    | inr closed ↦
        elim (Bool-cases (not (is_signed v c r.now r.timestamp r.nonce r.signature r.body))) [
          | inl bad ↦ rw (closed, bad) h
          | inr good ↦ elim (Bool-cases (not v.has_store || r.fails)) [
            | inl broken ↦ rw (closed, good, broken) h
            | inr works ↦
                rw (closed, good, works)
                  (ap (keeps key until) (
                      after_set-store (set_nx (nonce_key c r.nonce) r.later (2 * v.max_skew) store))
                    ∙ set_nx-keeps key (nonce_key c r.nonce) until r.later (2 * v.max_skew) store h)
          ]
        ]
  ]

  receive_all-keeps :
      (key : Text) (until : ℕ) (rs : List Request) (store : Store)
      → keeps key until store ≡ true
      → keeps key until (receive_all v c rs store) ≡ true
  unfolding receive_all
  receive_all-keeps key until [] store h = h
  receive_all-keeps key until (r ∷ rs) store h =
      receive_all-keeps key until rs (receive v c r store).1 (receive-keeps key until r store h)

  -- What an accepted request passed.
  record Passed (r : Request) (store : Store) : Type 0 where
    time : Number
    read : parse_int r.timestamp ≡ some time
    near : in_skew v.max_skew r.now time ≡ true
    fresh : any (lives (nonce_key c r.nonce) r.later) store ≡ false
    kept : keeps (nonce_key c r.nonce) (r.later + 2 * v.max_skew) (receive v c r store).1 ≡ true

  is_signed-near :
      (r : Request)
      → is_signed v c r.now r.timestamp r.nonce r.signature r.body ≡ true
      → (n : Number) × (parse_int r.timestamp ≡ some n) × (in_skew v.max_skew r.now n ≡ true)
  unfolding is_signed
  is_signed-near r h = elim (Option-cases (parse_int r.timestamp)) [
    | inl missing ↦ ground (arith, rw missing at h)
    | inr (n, there) ↦ (n, there, ground (arith, rw there at h))
  ]

  set_nx-fresh :
      (key : Text) (now ttl : ℕ) (store : Store)
      → (after_set (set_nx key now ttl store)).0 ≡ accepted
      → (any (lives key now) store ≡ false)
        × (keeps key (now + ttl) (after_set (set_nx key now ttl store)).1 ≡ true)
  unfolding set_nx after_set keeps
  set_nx-fresh key now ttl store h = elim (Bool-cases (any (lives key now) store)) [
    | inl alive ↦ let contra : unauthorized ≡ accepted = rw alive at h in cc
    | inr dead ↦ (dead, rw dead (ground (arith, text_eq_refl key)))
  ]

  receive-Passed :
      (r : Request) (store : Store)
      → v.required ≡ true
      → (receive v c r store).0 ≡ accepted
      → Passed r store
  unfolding receive verify
  receive-Passed r store required h =
      elim (Bool-cases (is_signed v c r.now r.timestamp r.nonce r.signature r.body)) [
        | inl good ↦ elim (Bool-cases (not v.has_store || r.fails)) [
          | inl broken ↦
              let contra : store_error ≡ accepted = rw (required, good, broken) at h in cc
          | inr works ↦
              let (n, there, near) = is_signed-near r good in
              let (fresh, kept) =
                set_nx-fresh (nonce_key c r.nonce) r.later (2 * v.max_skew) store
                  (rw (required, good, works) at h) in
              record {
                time = n;
                read = there;
                near = near;
                fresh = fresh;
                kept = unfold receive verify in rw (required, good, works) kept;
              }
        ]
        | inr bad ↦ let contra : unauthorized ≡ accepted = rw (required, bad) at h in cc
      ]

some-inj : (m n : Number) → some m ≡ some n → m ≡ n
some-inj m n e = cc

near-near :
    (skew now now' : ℕ) (n : Number)
    → in_skew skew now n ≡ true
    → in_skew skew now' n ≡ true
    → now' ≤ now + 2 * skew
unfolding in_skew
near-near skew now now' n h k = ground (arith, h, k)

-- Where signatures are required, let a request be accepted, whatever requests follow, and then one with
-- the same timestamp and nonce be accepted too: then the second waited longer between the reading of
-- the clock and the answer of the store than the first did. With no such wait a request is accepted
-- once.
pub receive-once :
    (v : Verifier) (c : Crypto) (first second : Request) (between : List Request) (store : Store)
    → v.required ≡ true
    → first.timestamp ≡ second.timestamp
    → first.nonce ≡ second.nonce
    → (receive v c first store).0 ≡ accepted
    → (receive v c second (receive_all v c between (receive v c first store).1)).0 ≡ accepted
    → second.now + first.later < first.now + second.later
receive-once v c first second between store required time nonce h k =
    let seen = receive_all v c between (receive v c first store).1 in
    let p = receive-Passed v c first store required h in
    let q = receive-Passed v c second seen required k in
    let until = first.later + 2 * v.max_skew in
    let kept =
      receive_all-keeps v c (nonce_key c first.nonce) until between (receive v c first store).1
        p.kept in
    let dead =
      keeps-dead (nonce_key c first.nonce) until second.later seen kept
        (ap (λ x. any (lives (nonce_key c x) second.later) seen) nonce ∙ q.fresh) in
    let same : some p.time ≡ some q.time = sym p.read ∙ ap parse_int time ∙ q.read in
    let near =
      near-near v.max_skew first.now second.now p.time p.near
        (ap (in_skew v.max_skew second.now) (some-inj p.time q.time same) ∙ q.near) in
    omega (arith, dead, near)

-- ===== src/Bindings/Nitro/Instance.antt =====
-- A concrete set of promises: one Java promise with queues of listeners, and numbered C++ promises.
use salve_push.Base.{
  ℕ, suc, ◌+◌, ◌<◌, ◌≡◌, refl, ap, ◌∙◌, Option, none, some, List, [], ◌∷◌, ◌++◌, arith, ◌==◌,
  if◌then◌else◌,
}
use salve_push.Bindings.Nitro.{Status, pending, resolved, rejected, Promises, IsLawful}

pub record Book : Type 0 where
  pub next : ℕ
  pub states : ℕ → Status ℕ
  pub java : Option (Option ℕ)
  pub resolve_queue : List ℕ
  pub reject_queue : List ℕ

abbrev put : ℕ → Status ℕ → (ℕ → Status ℕ) → ℕ → Status ℕ
put p s states q = if q == p then s else states q

abbrev put_all : List ℕ → Status ℕ → (ℕ → Status ℕ) → ℕ → Status ℕ
put_all [] s states = states
put_all (p ∷ ps) s states = put_all ps s (put p s states)

abbrev total : List ℕ → ℕ
total [] = 0
total (p ∷ ps) = p + total ps

-- A number beyond every promise that a listener waits for.
abbrev fresh : Book → ℕ
fresh b = suc (b.next + total b.resolve_queue + total b.reject_queue)

abbrev create : Book → ℕ × Book
create b = (fresh b, record b { next = fresh b; states = put (fresh b) pending b.states })

abbrev settled : Option ℕ → Book → Book
settled none b = record b {
  states = put_all b.resolve_queue resolved b.states;
  java = some none;
  resolve_queue = [];
  reject_queue = [];
}
settled (some t) b = record b {
  states = put_all b.reject_queue (rejected t) b.states;
  java = some (some t);
  resolve_queue = [];
  reject_queue = [];
}

abbrev settle : Option ℕ → Book → Book
settle o b = elim b.java [ none ↦ settled o b | some _ ↦ b ]

abbrev listen_resolved : ℕ → Book → Book
listen_resolved p b = elim b.java [
  | none ↦ record b { resolve_queue = b.resolve_queue ++ (p ∷ []) }
  | some none ↦ record b { states = put p resolved b.states }
  | some (some _) ↦ b
]

abbrev listen_rejected : ℕ → Book → Book
listen_rejected p b = elim b.java [
  | none ↦ record b { reject_queue = b.reject_queue ++ (p ∷ []) }
  | some none ↦ b
  | some (some t) ↦ record b { states = put p (rejected t) b.states }
]

abbrev pub book_promises : Promises
book_promises = record {
  World = Book;
  Promise = ℕ;
  JPromise = Unit {0};
  Throwable = ℕ;
  Exception = ℕ;
  jni_exception = λ t. t;
  create = create;
  resolve = λ p b. record b { states = put p resolved b.states };
  reject = λ p e b. record b { states = put p (rejected e) b.states };
  status = λ p b. b.states p;
  outcome = λ _ b. b.java;
  settle = λ _. settle;
  add_on_resolved_listener = λ _. listen_resolved;
  add_on_rejected_listener = λ _. listen_rejected;
}

put_all-append :
    (ps : List ℕ) (p : ℕ) (s : Status ℕ) (states : ℕ → Status ℕ)
    → put_all (ps ++ (p ∷ [])) s states ≡ put p s (put_all ps s states)
put_all-append [] p s states = refl
put_all-append (q ∷ ps) p s states = put_all-append ps p s (put q s states)

put_all-above :
    (ps : List ℕ) (q : ℕ) (s : Status ℕ) (states : ℕ → Status ℕ)
    → total ps < q
    → put_all ps s states q ≡ states q
put_all-above [] q s states h = refl
put_all-above (p ∷ ps) q s states h =
    put_all-above ps q s (put p s states) (omega arith) ∙ ground arith

unheard :
    (o : Option ℕ) (b : Book) → b.java ≡ none → (settle o (create b).1).states (fresh b) ≡ pending
unheard none b h = rw h (
    put_all-above b.resolve_queue (fresh b) resolved (put (fresh b) pending b.states) (omega arith)
    ∙ ground arith)
unheard (some t) b h = rw h (
    put_all-above b.reject_queue (fresh b) (rejected t) (put (fresh b) pending b.states)
      (omega arith)
    ∙ ground arith)

settle-listen_resolved :
    (p : ℕ) (o : Option ℕ) (b : Book)
    → b.java ≡ none
    → settle o (listen_resolved p b) ≡ listen_resolved p (settle o b)
settle-listen_resolved p none b h = rw h (
    ap
      (λ states. record b {
        states = states;
        java = some none;
        resolve_queue = [];
        reject_queue = [];
      })
      (put_all-append b.resolve_queue p resolved b.states))
settle-listen_resolved p (some t) b h = rw h

settle-listen_rejected :
    (p : ℕ) (o : Option ℕ) (b : Book)
    → b.java ≡ none
    → settle o (listen_rejected p b) ≡ listen_rejected p (settle o b)
settle-listen_rejected p none b h = rw h
settle-listen_rejected p (some t) b h = rw h (
    ap
      (λ states. record b {
        states = states;
        java = some (some t);
        resolve_queue = [];
        reject_queue = [];
      })
      (put_all-append b.reject_queue p (rejected t) b.states))

pub book_promises-IsLawful : IsLawful book_promises
book_promises-IsLawful = record {
  create-pending = λ b. ground arith;
  status-resolve = λ p b h. ground arith;
  status-reject = λ p e b h. ground arith;
  outcome-create = λ _ b. refl;
  outcome-resolve = λ _ p b. refl;
  outcome-on_resolved = λ _ p b. ground arith;
  outcome-settle = λ _ o b h. ground arith;
  status-settle_unheard = λ _ o b h. unheard o b h;
  on_resolved-resolved = λ _ p b h. rw h;
  on_resolved-rejected = λ _ p t b h. rw h;
  on_rejected-resolved = λ _ p b h. rw h;
  on_rejected-rejected = λ _ p t b h. rw h;
  settle-on_resolved = λ _ p o b h. settle-listen_resolved p o b h;
  settle-on_rejected = λ _ p o b h. settle-listen_rejected p o b h;
  status-on_resolved_unsettled = λ _ p q b h. ground arith;
  status-on_rejected_unsettled = λ _ p q b h. ground arith;
}

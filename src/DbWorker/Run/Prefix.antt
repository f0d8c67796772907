-- ===== src/DbWorker/Run/Prefix.antt =====
-- What a run of the worker has done, wherever it ended.
use predix_go_backend.Base.{
  ℕ, suc, ◌+◌, ◌≤◌, ◌≡◌, refl, sym, ap, ◌∙◌, subst, ◌⊎◌, String, Bool, true, false, Option, List,
  [], ◌∷◌, ◌++◌, arith, if◌then◌else◌, Bool-cases, inl, inr, length,
}
use mathlib.Core.List.{append_assoc, append-nil}
use predix_go_backend.DbWorker.Database.{Db}
use predix_go_backend.DbWorker.{handle_envelope}
use predix_go_backend.DbWorker.Run.{
  RawEvent, garbled, event, Outside, Progress, process_event_entry, process_event_entries,
  EventRead, delivered, failed, canceled, run_reads, run_worker,
}

-- The database after an event, and after events, each handled as `handleEnvelope` does.
abbrev pub apply_event : (String → Option String) → Outside → RawEvent → Db → Db
apply_event parse o garbled db = db
apply_event parse o (event env) db = (handle_envelope parse o.fails o.token env db).1

abbrev pub apply_events :
    (String → Option String) → (ℕ → Outside) → ℕ → List (String × RawEvent) → Db → Db
apply_events parse outs i [] db = db
apply_events parse outs i (x ∷ xs) db =
    apply_events parse outs (suc i) xs (apply_event parse (outs i) x.1 db)

abbrev pub ids : List (String × RawEvent) → List String
ids [] = []
ids (x ∷ xs) = x.0 ∷ ids xs

-- The events that are acknowledged are a first part, in order; they are applied, and one more at most
-- is, which is not acknowledged. A run that goes on has acknowledged all.
pub record IsProgress (parse : String → Option String) (outs : ℕ → Outside) (i : ℕ)
    (es : List (String × RawEvent)) (s : Progress) (r : Bool × Progress) : Type 0 where
  pub done : List (String × RawEvent)
  pub extra : List (String × RawEvent)
  pub rest : List (String × RawEvent)
  pub split : es ≡ done ++ (extra ++ rest)
  pub at_most_one : length extra ≤ 1
  pub acked : r.1.acked ≡ s.acked ++ ids done
  pub applied : r.1.db ≡ apply_events parse outs i (done ++ extra) s.db
  pub finished : r.0 ≡ true → extra ++ rest ≡ []

module _ (parse : String → Option String) (o : Outside) (id : String) (s : Progress) where
  process_event_entry-db :
      (raw : RawEvent) → (process_event_entry parse o id raw s).1.db ≡ apply_event parse o raw s.db
  unfolding process_event_entry
  process_event_entry-db garbled = refl
  process_event_entry-db (event env) =
      elim (Bool-cases (handle_envelope parse o.fails o.token env s.db).0) [
        | inr bad ↦ rw (process_event_entry, bad) refl
        | inl good ↦ elim (Bool-cases o.ack_ok) [
          | inl acks ↦ rw (process_event_entry, good, acks) refl
          | inr lost ↦ rw (process_event_entry, good, lost) refl
        ]
      ]

  pub process_event_entry-acked :
      (raw : RawEvent)
      → (process_event_entry parse o id raw s).1.acked
        ≡ (if (process_event_entry parse o id raw s).0 then s.acked ++ id ∷ [] else s.acked)
  unfolding process_event_entry
  process_event_entry-acked garbled = refl
  process_event_entry-acked (event env) =
      elim (Bool-cases (handle_envelope parse o.fails o.token env s.db).0) [
        | inr bad ↦ rw (process_event_entry, bad) refl
        | inl good ↦ elim (Bool-cases o.ack_ok) [
          | inl acks ↦ rw (process_event_entry, good, acks) refl
          | inr lost ↦ rw (process_event_entry, good, lost) refl
        ]
      ]

module _ (parse : String → Option String) (outs : ℕ → Outside) (i : ℕ) (id : String)
    (raw : RawEvent) (es : List (String × RawEvent)) (s : Progress) where
  pub process_event_entries-on :
      (process_event_entry parse (outs i) id raw s).0 ≡ true
      → process_event_entries parse outs i ((id, raw) ∷ es) s
        ≡ process_event_entries parse outs
            (suc i)
            es
            (process_event_entry parse (outs i) id raw s).1
  unfolding process_event_entries
  process_event_entries-on ok = rw (process_event_entries, ok) refl

  pub process_event_entries-ended :
      (process_event_entry parse (outs i) id raw s).0 ≡ false
      → process_event_entries parse outs i ((id, raw) ∷ es) s
        ≡ (false, (process_event_entry parse (outs i) id raw s).1)
  unfolding process_event_entries
  process_event_entries-ended bad = rw (process_event_entries, bad) refl

process_event_entries-IsProgress :
    (parse : String → Option String) (outs : ℕ → Outside) (i : ℕ) (es : List (String × RawEvent))
    (s : Progress)
    → IsProgress parse outs i es s (process_event_entries parse outs i es s)
unfolding process_event_entries
process_event_entries-IsProgress parse outs i [] s = record {
  done = [];
  extra = [];
  rest = [];
  split = refl;
  at_most_one = omega arith;
  acked = sym (append-nil s.acked);
  applied = refl;
  finished = λ e. refl;
}
process_event_entries-IsProgress parse outs i ((id, raw) ∷ es) s =
    let db = process_event_entry-db parse (outs i) id s raw in
    let acks = process_event_entry-acked parse (outs i) id s raw in
    elim (Bool-cases (process_event_entry parse (outs i) id raw s).0) [
      | inr bad ↦ rw (process_event_entries-ended parse outs i id raw es s bad) (record {
        done = [];
        extra = (id, raw) ∷ [];
        rest = es;
        split = refl;
        at_most_one = omega arith;
        acked = acks ∙ rw bad (sym (append-nil s.acked));
        applied = db;
        finished = λ e. cc;
      })
      | inl ok ↦
          let s' : Progress = (process_event_entry parse (outs i) id raw s).1 in
          let p = process_event_entries-IsProgress parse outs (suc i) es s' in
          rw (process_event_entries-on parse outs i id raw es s ok) (record {
            done = (id, raw) ∷ p.done;
            extra = p.extra;
            rest = p.rest;
            split = ap (λ (l : List (String × RawEvent)). (id, raw) ∷ l) p.split;
            at_most_one = p.at_most_one;
            acked =
                p.acked
                ∙ ap (λ (l : List String). l ++ ids p.done) (acks ∙ rw ok refl)
                ∙ append_assoc s.acked (id ∷ []) (ids p.done);
            applied = p.applied ∙ ap (apply_events parse outs (suc i) (p.done ++ p.extra)) db;
            finished = p.finished;
          })
    ]

ids-append : (xs ys : List (String × RawEvent)) → ids (xs ++ ys) ≡ ids xs ++ ids ys
ids-append [] ys = refl
ids-append (x ∷ xs) ys = ap (λ (l : List String). x.0 ∷ l) (ids-append xs ys)

shift : (i n : ℕ) → suc i + n ≡ i + suc n
shift i n = omega arith

apply_events-append :
    (parse : String → Option String) (outs : ℕ → Outside) (i : ℕ) (xs ys : List (String × RawEvent))
    (db : Db)
    → apply_events parse outs i (xs ++ ys) db
      ≡ apply_events parse outs (i + length xs) ys (apply_events parse outs i xs db)
apply_events-append parse outs i [] ys db =
    ap (λ (n : ℕ). apply_events parse outs n ys db) (omega arith)
apply_events-append parse outs i (x ∷ xs) ys db =
    apply_events-append parse outs (suc i) xs ys (apply_event parse (outs i) x.1 db)
    ∙ ap
        (λ (n : ℕ).
          apply_events parse outs n ys
            (apply_events parse outs (suc i) xs (apply_event parse (outs i) x.1 db)))
        (shift i (length xs))

no_first : (xs ys : List (String × RawEvent)) → xs ++ ys ≡ [] → xs ≡ []
no_first [] ys e = refl
no_first (x ∷ xs) ys e = cc

-- A run that goes on, followed by another; and one that has ended, whatever would have followed.
module _ (parse : String → Option String) (outs : ℕ → Outside) (i : ℕ)
    (es es' : List (String × RawEvent)) (s : Progress) where
  IsProgress-then :
      (s' : Progress) (r : Bool × Progress)
      → IsProgress parse outs i es s (true, s')
      → IsProgress parse outs (i + length es) es' s' r
      → IsProgress parse outs i (es ++ es') s r
  IsProgress-then s' r p q =
      let over = p.finished refl in
      let all : es ≡ p.done =
        p.split ∙ ap (λ (l : List (String × RawEvent)). p.done ++ l) over ∙ append-nil p.done in
      let both : p.done ++ p.extra ≡ es =
        ap (λ (l : List (String × RawEvent)). p.done ++ l) (no_first p.extra p.rest over)
        ∙ append-nil p.done
        ∙ sym all in
      let acked : s'.acked ≡ s.acked ++ ids es =
        p.acked ∙ ap (λ (l : List (String × RawEvent)). s.acked ++ ids l) (sym all) in
      let db : s'.db ≡ apply_events parse outs i es s.db =
        p.applied ∙ ap (λ (l : List (String × RawEvent)). apply_events parse outs i l s.db) both in
      record {
        done = es ++ q.done;
        extra = q.extra;
        rest = q.rest;
        split =
            ap (λ (l : List (String × RawEvent)). es ++ l) q.split
            ∙ sym (append_assoc es q.done (q.extra ++ q.rest));
        at_most_one = q.at_most_one;
        acked =
            q.acked
            ∙ ap (λ (l : List String). l ++ ids q.done) acked
            ∙ append_assoc s.acked (ids es) (ids q.done)
            ∙ ap (λ (l : List String). s.acked ++ l) (sym (ids-append es q.done));
        applied =
            q.applied
            ∙ ap (apply_events parse outs (i + length es) (q.done ++ q.extra)) db
            ∙ sym (apply_events-append parse outs i es (q.done ++ q.extra) s.db)
            ∙ ap (λ (l : List (String × RawEvent)). apply_events parse outs i l s.db)
                (sym (append_assoc es q.done q.extra));
        finished = q.finished;
      }

  IsProgress-ended :
      (s' : Progress)
      → IsProgress parse outs i es s (false, s')
      → IsProgress parse outs i (es ++ es') s (false, s')
  IsProgress-ended s' p = record {
    done = p.done;
    extra = p.extra;
    rest = p.rest ++ es';
    split =
        ap (λ (l : List (String × RawEvent)). l ++ es') p.split
        ∙ append_assoc p.done (p.extra ++ p.rest) es'
        ∙ ap (λ (l : List (String × RawEvent)). p.done ++ l) (append_assoc p.extra p.rest es');
    at_most_one = p.at_most_one;
    acked = p.acked;
    applied = p.applied;
    finished = λ e. cc;
  }

-- The events that the reads of a worker deliver before it is told to end.
abbrev pub events_of : List EventRead → List (String × RawEvent)
events_of [] = []
events_of (delivered es ∷ reads) = es ++ events_of reads
events_of (failed ∷ reads) = events_of reads
events_of (canceled ∷ reads) = []

module _ (parse : String → Option String) (outs : ℕ → Outside) (i : ℕ)
    (es : List (String × RawEvent)) (reads : List EventRead) (s s' : Progress) where
  run_reads-on :
      process_event_entries parse outs i es s ≡ (true, s')
      → run_reads parse outs i (delivered es ∷ reads) s
        ≡ run_reads parse outs (i + length es) reads s'
  unfolding run_reads
  run_reads-on e = rw (run_reads, e) refl

  run_reads-ended :
      process_event_entries parse outs i es s ≡ (false, s')
      → run_reads parse outs i (delivered es ∷ reads) s ≡ (false, s')
  unfolding run_reads
  run_reads-ended e = rw (run_reads, e) refl

Result-cases :
    (r : Bool × Progress) → ((s : Progress) × (r ≡ (true, s))) ⊎ ((s : Progress) × (r ≡ (false, s)))
Result-cases (true, s) = inl (s, refl)
Result-cases (false, s) = inr (s, refl)

IsProgress-none :
    (parse : String → Option String) (outs : ℕ → Outside) (i : ℕ) (s : Progress)
    → IsProgress parse outs i [] s (true, s)
IsProgress-none parse outs i s = record {
  done = [];
  extra = [];
  rest = [];
  split = refl;
  at_most_one = omega arith;
  acked = sym (append-nil s.acked);
  applied = refl;
  finished = λ e. refl;
}

run_reads-IsProgress :
    (parse : String → Option String) (outs : ℕ → Outside) (i : ℕ) (reads : List EventRead)
    (s : Progress)
    → IsProgress parse outs i (events_of reads) s (run_reads parse outs i reads s)
unfolding run_reads
run_reads-IsProgress parse outs i [] s = IsProgress-none parse outs i s
run_reads-IsProgress parse outs i (canceled ∷ reads) s = IsProgress-none parse outs i s
run_reads-IsProgress parse outs i (failed ∷ reads) s = run_reads-IsProgress parse outs i reads s
run_reads-IsProgress parse outs i (delivered es ∷ reads) s =
    let p = process_event_entries-IsProgress parse outs i es s in
    elim (Result-cases (process_event_entries parse outs i es s)) [
      | inl (s', on) ↦ rw (run_reads-on parse outs i es reads s s' on) (
          IsProgress-then parse outs i es (events_of reads) s s' _
            (subst (IsProgress parse outs i es s) on p)
            (run_reads-IsProgress parse outs (i + length es) reads s'))
      | inr (s', ended) ↦ rw (run_reads-ended parse outs i es reads s s' ended) (
          IsProgress-ended parse outs i es (events_of reads) s s'
            (subst (IsProgress parse outs i es s) ended p))
    ]

pub run_worker-IsProgress :
    (parse : String → Option String) (outs : ℕ → Outside) (claimed : List (String × RawEvent))
    (reads : List EventRead) (s : Progress)
    → IsProgress parse outs 0
        (claimed ++ events_of reads)
        s
        (run_worker parse outs true claimed reads s)
unfolding run_worker
run_worker-IsProgress parse outs claimed reads s =
    run_reads-IsProgress parse outs 0 (delivered claimed ∷ reads) s

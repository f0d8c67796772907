-- ===== src/Engine/Consumer/Entries.antt =====
-- What consuming a stream does: to the engine, to the entries, and to the clients that wait.
use predix_go_backend.Base.{
  ℕ, suc, ◌+◌, ◌≡◌, refl, sym, ap, ◌∙◌, String, true, Option, none, some, List, [], ◌∷◌, ◌++◌,
  arith, string_eq, Option-cases, inl, inr, length,
}
use predix_go_backend.Engine.Commands.{Engine, World, Response}
use predix_go_backend.Engine.Dispatch.{Command, handle_message, run_commands}
use predix_go_backend.Engine.Dispatch.Runs.{
  go_on, run_commands-next, run_commands-stuck, run_commands-append,
}
use predix_go_backend.Engine.Consumer.{
  Consumer, Link, Read, delivered, failed, stopped, read_entry, acknowledge, respond, request_of,
  process_stream_entry, process_entries, consume_reads, consume_messages,
}
use predix_go_backend.Rpc.{Entry}

abbrev pub engine_after : Option Consumer → Option Engine
engine_after none = none
engine_after (some c) = some c.engine

abbrev pub commands_of : List (String × Entry) → List (Option Command)
commands_of [] = []
commands_of (x ∷ xs) = read_entry x.1 ∷ commands_of xs

respond-engine :
    (link : Link) (entry : Entry) (request : String) (body : Response) (c : Consumer)
    → (respond link entry request body c).engine ≡ c.engine
unfolding respond
respond-engine link entry request body c = ground arith

pub acknowledge-engine :
    (link : Link) (id : String) (c : Consumer) → (acknowledge link id c).engine ≡ c.engine
acknowledge-engine link id c = ground arith

module _ (w : World) (pid : ℕ) (link : Link) (id : String) (entry : Entry) (c : Consumer) where
  process_stream_entry-unread :
      read_entry entry ≡ none
      → process_stream_entry w pid link id entry c ≡ some (acknowledge link id c)
  unfolding process_stream_entry
  process_stream_entry-unread e = rw (process_stream_entry, e) refl

  process_stream_entry-stuck :
      (q : Command)
      → read_entry entry ≡ some q
      → handle_message w pid q c.engine ≡ none
      → process_stream_entry w pid link id entry c ≡ none
  unfolding process_stream_entry
  process_stream_entry-stuck q e f = rw (process_stream_entry, e, f) refl

  pub process_stream_entry-handled :
      (q : Command) (body : Response) (engine : Engine)
      → read_entry entry ≡ some q
      → handle_message w pid q c.engine ≡ some (body, engine)
      → process_stream_entry w pid link id entry c
        ≡ some (
            acknowledge link id
              (respond link entry (request_of entry) body (record c { engine = engine })))
  unfolding process_stream_entry
  process_stream_entry-handled q body engine e f = rw (process_stream_entry, e, f) refl

process_entries-next :
    (ws : ℕ → World) (pid : ℕ) (links : ℕ → Link) (i : ℕ) (id : String) (entry : Entry)
    (es : List (String × Entry)) (c c' : Consumer)
    → process_stream_entry (ws i) pid (links i) id entry c ≡ some c'
    → process_entries ws pid links i ((id, entry) ∷ es) c
      ≡ process_entries ws pid links (suc i) es c'
unfolding process_entries
process_entries-next ws pid links i id entry es c c' e = rw (process_entries, e) refl

process_entries-stuck :
    (ws : ℕ → World) (pid : ℕ) (links : ℕ → Link) (i : ℕ) (id : String) (entry : Entry)
    (es : List (String × Entry)) (c : Consumer)
    → process_stream_entry (ws i) pid (links i) id entry c ≡ none
    → process_entries ws pid links i ((id, entry) ∷ es) c ≡ none
unfolding process_entries
process_entries-stuck ws pid links i id entry es c e = rw (process_entries, e) refl

process_entries-engine :
    (ws : ℕ → World) (pid : ℕ) (links : ℕ → Link) (i : ℕ) (es : List (String × Entry))
    (c : Consumer)
    → engine_after (process_entries ws pid links i es c)
      ≡ run_commands ws pid i (commands_of es) c.engine
unfolding process_entries run_commands
process_entries-engine ws pid links i [] c = refl
process_entries-engine ws pid links i ((id, entry) ∷ es) c =
    elim (Option-cases (read_entry entry)) [
      | inl unread ↦
          let c' = acknowledge (links i) id c in
          rw
            (
              process_entries-next ws pid links i id entry es c c'
                  (process_stream_entry-unread (ws i) pid (links i) id entry c unread),
              unread,
            )
            (process_entries-engine ws pid links (suc i) es c'
              ∙ ap (run_commands ws pid (suc i) (commands_of es))
                  (acknowledge-engine (links i) id c))
      | inr (q, read) ↦ elim (Option-cases (handle_message (ws i) pid q c.engine)) [
        | inl stuck ↦
            rw
              (
                process_entries-stuck ws pid links i id entry es c
                    (process_stream_entry-stuck (ws i) pid (links i) id entry c q read stuck),
                read,
              )
              (sym (run_commands-stuck ws pid i (commands_of es) c.engine q stuck))
        | inr ((body, engine), done) ↦
            let moved : Consumer = record c { engine = engine } in
            let told : Consumer = respond (links i) entry (request_of entry) body moved in
            rw
              (
                process_entries-next ws pid links i id entry es c _ (
                    process_stream_entry-handled (ws i) pid (links i) id entry c q body engine read
                      done),
                read,
                run_commands-next ws pid i (commands_of es) c.engine q _ done,
              )
              (process_entries-engine ws pid links (suc i) es (acknowledge (links i) id told)
                ∙ ap (run_commands ws pid (suc i) (commands_of es)) (
                    acknowledge-engine (links i) id told
                    ∙ respond-engine (links i) entry (request_of entry) body moved))
      ]
    ]

-- The entries that the reads of a consumer deliver before it stops.
abbrev pub entries_of : List Read → List (String × Entry)
entries_of [] = []
entries_of (delivered es ∷ reads) = es ++ entries_of reads
entries_of (failed ∷ reads) = entries_of reads
entries_of (stopped ∷ reads) = []

commands_of-append :
    (xs ys : List (String × Entry)) → commands_of (xs ++ ys) ≡ commands_of xs ++ commands_of ys
commands_of-append [] ys = refl
commands_of-append (x ∷ xs) ys =
    ap (λ (l : List (Option Command)). read_entry x.1 ∷ l) (commands_of-append xs ys)

length-commands_of : (xs : List (String × Entry)) → length (commands_of xs) ≡ length xs
length-commands_of [] = refl
length-commands_of (x ∷ xs) = ap suc (length-commands_of xs)

module _ (ws : ℕ → World) (pid : ℕ) (links : ℕ → Link) (i : ℕ) (es : List (String × Entry))
    (reads : List Read) (c : Consumer) where
  consume_reads-stuck :
      process_entries ws pid links i es c ≡ none
      → consume_reads ws pid links i (delivered es ∷ reads) c ≡ none
  unfolding consume_reads
  consume_reads-stuck e = rw (consume_reads, e) refl

  consume_reads-next :
      (c' : Consumer)
      → process_entries ws pid links i es c ≡ some c'
      → consume_reads ws pid links i (delivered es ∷ reads) c
        ≡ consume_reads ws pid links (i + length es) reads c'
  unfolding consume_reads
  consume_reads-next c' e = rw (consume_reads, e) refl

consume_reads-engine :
    (ws : ℕ → World) (pid : ℕ) (links : ℕ → Link) (i : ℕ) (reads : List Read) (c : Consumer)
    → engine_after (consume_reads ws pid links i reads c)
      ≡ run_commands ws pid i (commands_of (entries_of reads)) c.engine
unfolding consume_reads run_commands
consume_reads-engine ws pid links i [] c = refl
consume_reads-engine ws pid links i (stopped ∷ reads) c = refl
consume_reads-engine ws pid links i (failed ∷ reads) c = consume_reads-engine ws pid links i reads c
consume_reads-engine ws pid links i (delivered es ∷ reads) c =
    let later = commands_of (entries_of reads) in
    let first = process_entries-engine ws pid links i es c in
    let split : run_commands ws pid i (commands_of (es ++ entries_of reads)) c.engine
        ≡ go_on ws pid (i + length es) later (run_commands ws pid i (commands_of es) c.engine) =
      ap (λ (l : List (Option Command)). run_commands ws pid i l c.engine)
        (commands_of-append es (entries_of reads))
      ∙ run_commands-append ws pid i (commands_of es) later c.engine
      ∙ ap (λ (n : ℕ). go_on ws pid (i + n) later (run_commands ws pid i (commands_of es) c.engine))
          (length-commands_of es) in
    elim (Option-cases (process_entries ws pid links i es c)) [
      | inl stuck ↦
          ap engine_after (consume_reads-stuck ws pid links i es reads c stuck)
          ∙ sym
              (split ∙ ap (go_on ws pid (i + length es) later) (sym first ∙ ap engine_after stuck))
      | inr (c', done) ↦
          ap engine_after (consume_reads-next ws pid links i es reads c c' done)
          ∙ consume_reads-engine ws pid links (i + length es) reads c'
          ∙ sym (split ∙ ap (go_on ws pid (i + length es) later) (sym first ∙ ap engine_after done))
    ]

-- A consumer that has its group, whatever the reads, the acknowledgements and the publications do,
-- takes the engine through the commands of the entries that were left pending and of those read
-- before it stops, in order, as a replay of them would.
pub consume_messages-run_commands :
    (ws : ℕ → World) (pid : ℕ) (links : ℕ → Link) (claimed : List (String × Entry))
    (reads : List Read) (c : Consumer)
    → engine_after (consume_messages ws pid links true claimed reads c)
      ≡ run_commands ws pid 0 (commands_of (claimed ++ entries_of reads)) c.engine
unfolding consume_messages
consume_messages-run_commands ws pid links claimed reads c =
    consume_reads-engine ws pid links 0 (delivered claimed ∷ reads) c

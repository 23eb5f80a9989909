-- ===== src/Job/Facts.antt =====
-- What reading a stored task back keeps.
use enoch.Base.{
  ◌≡◌, refl, ap, ap₂, ◌∙◌, sym, inl, inr, arith, ltb, Bool, true, false, ◌&&◌, Option, some, none,
  String, is_some, some-injective, Bool-cases,
}
use enoch.Base.Text.{strip, lower, truthy}
use enoch.Base.Text.Laws.{strip-strip, lower-strip_idem}
use enoch.Base.Int.{is_zero}
use enoch.Json.{obj}
use enoch.Payloads.{require_extension_lane_namespace, require_extension_payload_namespace}
use enoch.Payloads.Bounds.{Metadata, normalize_extension_metadata}
use enoch.Payloads.References.{references_from_json}
use enoch.Payloads.Stable.{metadata_stable, references_stable, lane_stable}
use enoch.Job.{TaskJob, ConversationId, number, name}
use enoch.Job.Normalize.{non_empty, normalize_conversation_id}
use enoch.Job.Reparse.{
  Payload, parse_payload, join_payload, terminal_ok, finish_parse, reparse, clean_job,
}

-- The id of a task is the same after reading it back.
pub id-reparse : (j j' : TaskJob) → reparse j ≡ some j' → j'.id ≡ j.id
unfolding reparse clean_job
id-reparse j j' h = ground arith

-- The payload that was read is read again.
join_payload-eq-some :
    (source : String) (m : Option Metadata) (rs : Option _) (lane : Option String) {p : Payload}
    → join_payload source m rs lane ≡ some p
    → (m ≡ some p.metadata)
      × (rs ≡ some p.refs)
      × (lane ≡ some p.lane)
      × (require_extension_payload_namespace source p.metadata p.refs ≡ true)
join_payload-eq-some source none rs lane h = absurd (cc)
join_payload-eq-some source (some m) none lane h = absurd (cc)
join_payload-eq-some source (some m) (some rs) none h = absurd (cc)
join_payload-eq-some source (some m) (some rs) (some lane) h = ground arith

payload_stable :
    (source : String) (m : Metadata) (rs : _) (lane : String) {p : Payload}
    → parse_payload source m rs lane ≡ some p
    → parse_payload source p.metadata p.refs p.lane ≡ some p
unfolding parse_payload
payload_stable source m rs lane {p} h =
    let (hm, hr, hl, hn) =
      join_payload-eq-some source (normalize_extension_metadata (obj m)) (references_from_json rs)
        (require_extension_lane_namespace source lane) h in
    rw (metadata_stable m hm, references_stable rs hr, lane_stable source lane hl) (rw hn refl)

non_empty-stable :
    (s : String) {c : ConversationId}
    → non_empty (strip s) ≡ some c
    → normalize_conversation_id c ≡ some c
unfolding normalize_conversation_id
non_empty-stable s {c} h = go (strip s) (strip-strip s) h
  where
    go : (t : String) → strip t ≡ t → non_empty t ≡ some c → normalize_conversation_id c ≡ some c
    go String.[] e k = absurd (cc)
    go (String.◌∷◌ d t) e k =
        let same : name (String.◌∷◌ d t) ≡ c = some-injective k in rw (← same) (ap non_empty e)

chat_stable :
    (c : ConversationId) {c' : ConversationId}
    → normalize_conversation_id c ≡ some c'
    → normalize_conversation_id c' ≡ some c'
unfolding normalize_conversation_id
chat_stable (number n) {c'} h = elim (Bool-cases (is_zero n)) [
  | inl z ↦ absurd (ground (arith, z))
  | inr z ↦ let e : number n ≡ c' = ground (arith, z) in rw (← e) (rw z refl)
]
chat_stable (name s) h = non_empty-stable s h

-- What a task is that was read.
pub finish_parse-eq-some :
    (raw : TaskJob) (p : Option Payload) (c : Option ConversationId) (b : Bool) {j : TaskJob}
    → finish_parse raw p c b ≡ some j
    → (payload : Payload) × (chat : ConversationId) × (p ≡ some payload)
      × (c ≡ some chat)
      × (b ≡ true)
      × (j ≡ clean_job raw chat payload)
finish_parse-eq-some raw none c b h = absurd (cc)
finish_parse-eq-some raw (some p) none b h = absurd (cc)
finish_parse-eq-some raw (some p) (some c) false h = absurd (cc)
finish_parse-eq-some raw (some p) (some c) true h = (p, c, refl, refl, refl, sym (some-injective h))

-- What `reparse` gives, it accepts again; the addresses are not considered.
pub reparse_stable : (j j' : TaskJob) → reparse j ≡ some j' → is_some (reparse j') ≡ true
unfolding reparse clean_job
reparse_stable j j' h =
    let (payload, chat, hp, hc, hb, e) = finish_parse-eq-some j _ _ _ h in
    rw e (again payload chat hp hc hb)
  where
    again :
        (payload : Payload) (chat : ConversationId)
        → parse_payload
            (strip j.context_source)
            j.extension_metadata
            j.extension_artifact_refs
            j.execution_lane
          ≡ some payload
        → normalize_conversation_id j.chat_id ≡ some chat
        → (terminal_ok (lower (strip j.terminal_status)) && ltb 0 j.id && truthy (strip j.text))
          ≡ true
        → is_some (reparse (clean_job j chat payload)) ≡ true
    again payload chat hp hc hb =
        let payloads : parse_payload (strip (strip j.context_source)) payload.metadata payload.refs
              payload.lane
            ≡ some payload =
          ap (λ (s : String). parse_payload s payload.metadata payload.refs payload.lane)
            (strip-strip j.context_source)
          ∙ payload_stable _ _ _ _ hp in
        let checks =
          ap₂ (λ (s t : String). terminal_ok s && ltb 0 j.id && truthy t)
            (lower-strip_idem j.terminal_status) (strip-strip j.text)
          ∙ hb in
        let chats = chat_stable j.chat_id hc in
        λ i. is_some (finish_parse (clean_job j chat payload) (payloads i) (chats i) (checks i))

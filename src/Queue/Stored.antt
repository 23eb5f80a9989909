-- ===== src/Queue/Stored.antt =====
-- Which changes of a task leave it readable: `reparse` succeeds by its id, text, conversation,
-- context source, payload and terminal status alone.
use enoch.Base.{◌≡◌, refl, Bool, true, false, ◌&&◌, Option, none, some, is_some}
use enoch.Job.{TaskJob, ConversationId}
use enoch.Job.Reparse.{Payload, finish_parse}

-- The same answers of the parts read another job too.
pub finish_again :
    (r j : TaskJob) (p : Option Payload) (c : Option ConversationId) (b : Bool)
    → is_some (finish_parse r p c b) ≡ true
    → is_some (finish_parse j p c b) ≡ true
finish_again r j none c b h = absurd (cc)
finish_again r j (some p) none b h = absurd (cc)
finish_again r j (some p) (some c) false h = absurd (cc)
finish_again r j (some p) (some c) true h = refl

-- A changed terminal status has to be one that can be read.
pub finish_other :
    (r j : TaskJob) (p : Option Payload) (c : Option ConversationId) (s t b b' : Bool)
    → is_some (finish_parse r p c (s && b && b')) ≡ true
    → t ≡ true
    → is_some (finish_parse j p c (t && b && b')) ≡ true
finish_other r j none c s t b b' h k = absurd (cc)
finish_other r j (some p) none s t b b' h k = absurd (cc)
finish_other r j (some p) (some c) false t b b' h k = absurd (cc)
finish_other r j (some p) (some c) true t false b' h k = absurd (cc)
finish_other r j (some p) (some c) true t true false h k = absurd (cc)
finish_other r j (some p) (some c) true t true true h k = rw k refl

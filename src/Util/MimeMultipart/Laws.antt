-- ===== src/Util/MimeMultipart/Laws.antt =====
-- The loop of `parse` ends, for every payload.
use nawa.Common.{◌<◌, ◌≡◌, ◌⊎◌, List, ◌++◌, length, Bytes, substr, find_first_of}
use nawa.Common.Result.{Result, ok, err, exception}
use nawa.Util.MimeMultipart.{Part, MimeMultipart, Round, malformed, finished, part}

Shorter : Bytes → Round → Type 0
Shorter s malformed = Unit
Shorter s finished = Unit
Shorter s (part p rest) = length rest < length s

-- The ends of the loop: it returns or finds a malformed payload, behind the parts that were there.
abbrev pub Ends : List Part → List Part × Result (Unit {0}) → Type 0
Ends parts r =
    ((r.1 ≡ ok tt) ⊎ (r.1 ≡ err (exception 2))) × ((new : List Part) × (r.0 ≡ parts ++ new))

-- What a parse with a boundary leaves.
abbrev pub AfterLoop : Bytes → MimeMultipart → MimeMultipart × Result (Unit {0}) → Type 0
AfterLoop content_type m r =
    (((r.1 ≡ ok tt) × (r.0.content_type ≡ substr content_type 0 (find_first_of b';' content_type)))
      ⊎ ((r.1 ≡ err (exception 2)) × (r.0.content_type ≡ m.content_type)))
    × ((new : List Part) × (r.0.parts ≡ m.parts ++ new))

-- ===== src/Session/Store.antt =====
-- `SessionData`, the global table `sessionData`, and its garbage collection.
use nawa.Common.{ℕ, suc, Bool, List, [], ◌==◌, if◌then◌else◌, Bytes}
use nawa.Common.Table.{text_eq, erase, erase_if, assign}
use nawa.Common.Number.{time_lt}

-- A value of type std::any: empty, a std::string, or an object that only the application can read.
pub data AnyValue : Type 0 where
  empty : AnyValue
  text : Bytes → AnyValue
  object : ℕ → AnyValue

pub record SessionData : Type 0 where
  pub data_map : List (Bytes × AnyValue)
  pub expires : ℕ
  pub source_ip : Bytes

-- `next` is the next unused pointer.
pub record Store : Type 0 where
  pub objects : ℕ → SessionData
  pub next : ℕ
  pub session_data : List (Bytes × ℕ)

abbrev pub new_data : Bytes → SessionData
new_data ip = record { data_map = []; expires = 0; source_ip = ip }

unfoldable pub empty_store : Store
empty_store = record { objects = λ p. new_data []; next = 0; session_data = [] }

-- A write through a pointer.
abbrev pub update : (ℕ → SessionData) → ℕ → SessionData → ℕ → SessionData
update objects p d q = if q == p then d else objects q

unfoldable pub set_expires : ℕ → ℕ → Store → Store
set_expires p t st = record st {
  objects = update st.objects p (record (st.objects p) { expires = t });
}

unfoldable pub remove : Bytes → Store → Store
remove id st = record st { session_data = erase id st.session_data }

-- `make_shared<SessionData>(ip)`, with its expiry, entered under an ID.
unfoldable pub create : Bytes → Bytes → ℕ → Store → Store
create id ip t st = record {
  objects = update st.objects st.next (record (new_data ip) { expires = t });
  next = suc st.next;
  session_data = assign id st.next st.session_data;
}

-- `collectGarbage` erases each session whose expiry is before `now`.
abbrev pub is_expired : (ℕ → SessionData) → ℕ → Bytes → ℕ → Bool
is_expired objects now id p = time_lt (objects p).expires now

unfoldable pub collect_garbage : ℕ → Store → Store
collect_garbage now st = record st {
  session_data = erase_if (is_expired st.objects now) st.session_data;
}

-- `Session::destroy`.
unfoldable pub destroy : Store → Store
destroy st = record st { session_data = [] }

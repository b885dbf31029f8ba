-- ===== src/Protocol.antt =====
-- src/ccc_storage_core/protocol.py: the messages between the client and the service, as dicts. The
-- line of JSON that carries a message is not modelled.
use ccc_storage.Base.{
  String, ℕ, ◌≡◌, refl, sym, ap, ◌∙◌, Bool, false, ltb, Option, none, some, Result, raised, ok,
  protocol_error, ◌>>=◌, >>=-ok, if◌then◌else◌, arith, Bool-cases, inl, inr, subst,
}
use ccc_storage.Base.Text.{is_empty}
use ccc_storage.Manifest.Value.{Value, text, int, bool, table, Fields, empty, get, put, dict_laws}
use ccc_storage.Manifest.Decode.{int_or, str_or, truth_of}

abbrev protocol_version : ℕ
protocol_version = 1

pub record Request : Type 0 where
  pub command : String
  pub path : String
  pub payload : Fields
  pub version : ℕ

pub record Response : Type 0 where
  pub is_ok : Bool
  pub result : Fields
  pub error : String
  pub code : String
  pub version : ℕ

unfoldable pub request_to_dict : Request → Fields
request_to_dict r =
    put
      (put (put (put empty "version" (int r.version)) "command" (text r.command)) "path"
        (text r.path))
      "payload" (table r.payload)

unfoldable pub response_to_dict : Response → Fields
response_to_dict r =
    put
      (put
        (put (put (put empty "version" (int r.version)) "ok" (bool r.is_ok)) "result"
          (table r.result))
        "error" (text r.error))
      "code" (text r.code)

abbrev pub check_version : ℕ → Result ℕ
check_version version =
    if ltb protocol_version version
    then raised protocol_error
    else if ltb version 1
    then raised protocol_error
    else ok version

-- `if not command: raise ProtocolError`
abbrev pub required_command : String → Result String
required_command command = if is_empty command then raised protocol_error else ok command

-- `data.get(key, {})`, which must be an object.
abbrev pub object_or_empty : Option Value → Result Fields
object_or_empty none = ok empty
object_or_empty (some (table d)) = ok d
object_or_empty (some v) = raised protocol_error

check_version-one : (n v : ℕ) → check_version n ≡ ok v → v ≡ 1
check_version-one n v h = ground arith

required_command-named :
    (s command : String) → required_command s ≡ ok command → is_empty command ≡ false
required_command-named s command h = elim (Bool-cases (is_empty s)) [
  | inl e ↦ cc (rw e at h)
  | inr e ↦
      let same : ok s ≡ ok command = rw e at h in
      let eq : s ≡ command = cc in subst (λ t. is_empty t ≡ false) eq e
]

fields_of_ok :
    {a b : Request}
    → ok a ≡ ok b
    → (a.version ≡ b.version) × (a.command ≡ b.command) × (a.payload ≡ b.payload)
fields_of_ok {a} {b} h =
    let eq : a ≡ b = cc in
    (
      ap (λ (r : Request). r.version) eq,
      ap (λ (r : Request). r.command) eq,
      ap (λ (r : Request). r.payload) eq,
    )

module _ (repr : Value → String) (read_int : String → Result ℕ) where
  unfoldable pub request_from_dict : Fields → Result Request
  request_from_dict d = do
    version ← int_or repr read_int (get d "version") 0
    version ← check_version version
    command ← required_command (str_or repr read_int (get d "command") "")
    payload ← object_or_empty (get d "payload")
    ok (record {
      command = command;
      path = str_or repr read_int (get d "path") "";
      payload = payload;
      version = version;
    })

  unfoldable pub response_from_dict : Fields → Result Response
  response_from_dict d = do
    version ← int_or repr read_int (get d "version") 0
    version ← check_version version
    result ← object_or_empty (get d "result")
    ok (record {
      is_ok = truth_of repr read_int (get d "ok");
      result = result;
      error = str_or repr read_int (get d "error") "";
      code = str_or repr read_int (get d "code") "";
      version = version;
    })

  check_version_one : (n : ℕ) → n ≡ 1 → check_version n ≡ ok n
  check_version_one n e = ground arith

  required_command_lem :
      (command : String) → is_empty command ≡ false → required_command command ≡ ok command
  required_command_lem command h = rw h refl

  -- A request of this version with a command, and every response of this version, reads back as it
  -- was written.
  pub messages-round_trip :
      (q : Request) (a : Response)
      → q.version ≡ 1
      → is_empty q.command ≡ false
      → a.version ≡ 1
      → (request_from_dict (request_to_dict q) ≡ ok q)
        × (response_from_dict (response_to_dict a) ≡ ok a)
  unfolding request_from_dict request_to_dict response_from_dict response_to_dict
  messages-round_trip q a v named w = (
    simp (dict_laws, check_version_one q.version v, required_command_lem q.command named),
    simp (dict_laws, check_version_one a.version w),
  )

  -- A request that is read has version 1, a command, and an object as its payload.
  request_from_dict-version :
      (d : Fields) (q : Request)
      → request_from_dict d ≡ ok q
      → (q.version ≡ 1)
        × (is_empty q.command ≡ false)
        × (object_or_empty (get d "payload") ≡ ok q.payload)
  unfolding request_from_dict
  request_from_dict-version d q h =
      let (n, h1, e1) = >>=-ok (int_or repr read_int (get d "version") 0) _ q h in
      let (v, h2, e2) = >>=-ok (check_version n) _ q h1 in
      let (c, h3, e3) =
        >>=-ok (required_command (str_or repr read_int (get d "command") "")) _ q h2 in
      let (p, h4, e4) = >>=-ok (object_or_empty (get d "payload")) _ q h3 in
      let (same_version, same_command, same_payload) = fields_of_ok h4 in
      (
        sym same_version ∙ check_version-one n v e2,
        subst (λ t. is_empty t ≡ false) same_command
            (required_command-named (str_or repr read_int (get d "command") "") c e3),
        e4 ∙ ap (λ t. ok t) same_payload,
      )

-- ===== src/Task/Assign.antt =====
-- internal/task/service.go, buildAssign: the message that hands a task to a worker.
use crawler_lite.Prelude.Base.{
  ◌^◌, ◌/◌, Bool, true, false, not, Option, none, some, [], ltb, leb, if◌then◌else◌,
}
use crawler_lite.Prelude.Int.{ℤ, pos, sub_ℕ}
use crawler_lite.Prelude.Text.{codes, is_empty}
use crawler_lite.Prelude.Json.{
  Float64, nan, inf, finite, Value, float64, Fields, end, get as field_of, encodes_fields,
}
use crawler_lite.Result.{Error, db_error, no_source, wrapped, Result, ok, err}
use crawler_lite.Spider.Model.{Spider}
use crawler_lite.Task.Model.{Task, AssignTask, Deps}

-- `int32(f)`; out of range amd64 gives the least int32.
unfoldable pub to_int32 : Float64 → ℤ
to_int32 nan = sub_ℕ 0 (2 ^ 31)
to_int32 (inf sign) = sub_ℕ 0 (2 ^ 31)
to_int32 (finite true num places) =
    if leb (num / 2 ^ places) (2 ^ 31) then sub_ℕ 0 (num / 2 ^ places) else sub_ℕ 0 (2 ^ 31)
to_int32 (finite false num places) =
    if ltb (num / 2 ^ places) (2 ^ 31) then pos (num / 2 ^ places) else sub_ℕ 0 (2 ^ 31)

abbrev pub is_positive : Float64 → Bool
is_positive (finite false num places) = ltb 0 num
is_positive (inf false) = true
is_positive _ = false

-- The task's timeout: `timeout_s` of the configuration, where it is a positive float.
unfoldable pub timeout_of : ℤ → Value → ℤ
unfolding to_int32
timeout_of default (float64 f) = if is_positive f then to_int32 f else default
timeout_of default _ = default

abbrev pub args_or_empty : Option Fields → Fields
args_or_empty none = end
args_or_empty (some m) = m

abbrev pub marshal_error : Error
marshal_error = db_error (codes "json: unsupported value")

abbrev pub assign_message : Deps → Task → Spider → AssignTask
assign_message d t sp = record {
  task_id = t.id;
  spider_id = t.spider_id;
  spider_version = t.spider_version;
  source_key = sp.source_key;
  entry_module = sp.entry_module;
  config = sp.config;
  args = args_or_empty t.triggered_args;
  proxy_url = [];
  timeout_s = timeout_of d.default_timeout_seconds (field_of sp.config (codes "timeout_s"));
}

-- buildAssign behind the lookup of the spider.
unfoldable pub build_assign_from : Deps → Task → Result Spider → Result AssignTask
build_assign_from d t (err e) = err (wrapped (codes "lookup spider") e)
build_assign_from d t (ok sp) =
    if is_empty sp.source_key
    then err no_source
    else if not (encodes_fields sp.config)
    then err (wrapped (codes "marshal config") marshal_error)
    else if not (encodes_fields (args_or_empty t.triggered_args))
    then err (wrapped (codes "marshal args") marshal_error)
    else ok (assign_message d t sp)

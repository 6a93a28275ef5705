-- ===== src/Observability/Tracing.antt =====
-- observability/tracing/tracing.go, and the part of context.Context that the program uses. A context
-- is the values that were put into it, of which the last under a key counts.
use covenant_signer.Prelude.{Option, none, some, List, []}
use covenant_signer.Prelude.Int.{ℤ}
use covenant_signer.Go.Text.{GoString}

pub record SpanDetail : Type 0 where
  pub name : GoString
  pub duration : ℤ

pub record TracingInfo : Type 0 where
  pub span_details : List SpanDetail

-- zerolog's logger with the fields that the program gives it
pub record Logger : Type 0 where
  pub path : GoString
  pub trace_id : Option GoString

-- `context.WithValue` under TraceIdKey and TraceInfoKey, and `Logger.WithContext`
pub data Context : Type 0 where
  background : Context
  with_trace_id : GoString → Context → Context
  with_trace_info : TracingInfo → Context → Context
  with_logger : Logger → Context → Context

-- `ctx.Value(TraceIdKey)`
unfoldable pub trace_id_of : Context → Option GoString
trace_id_of background = none
trace_id_of (with_trace_id id ctx) = some id
trace_id_of (with_trace_info info ctx) = trace_id_of ctx
trace_id_of (with_logger logger ctx) = trace_id_of ctx

-- `ctx.Value(TraceInfoKey)`
unfoldable pub trace_info_of : Context → Option TracingInfo
trace_info_of background = none
trace_info_of (with_trace_id id ctx) = trace_info_of ctx
trace_info_of (with_trace_info info ctx) = some info
trace_info_of (with_logger logger ctx) = trace_info_of ctx

-- `AttachTracingIntoContext`, for the text of the new UUID
unfoldable pub attach_tracing_into_context : GoString → Context → Context
attach_tracing_into_context trace_id ctx =
    with_trace_info (record { span_details = [] }) (with_trace_id trace_id ctx)

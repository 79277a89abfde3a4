-- ===== src/Lib.antt =====
-- A model of parts of cno-cli: a JavaScript runtime made of a C engine and a command line program
-- in TypeScript, which runs on that engine.
--
-- Engine/ models functions of .backup/quickjs.c, the repository's changed copy of the QuickJS engine:
-- all of the C code that the repository holds but for its header file and a test fixture. Cli/
-- models src/, the command line program. The two parts share Base/ only: the program reaches the
-- engine's functions as JavaScript built-ins.
--
-- - Engine/Base64.antt, Engine/Base64/Tables.antt: b64_encode, b64_decode and their tables.
-- - Engine/Base64/From.antt: from_base64, the decoder behind Uint8Array.fromBase64 and
--   setFromBase64. Bounds, Ending and Agree, beside it, are about this function.
-- - Engine/Hex.antt: u8a_hex_nibble, u8a_hex_encode, u8a_hex_decode.
-- - Engine/Text.antt: js_btoa and js_atob, which call b64_encode and b64_decode.
-- - Engine/Uint8Array.antt, Engine/Uint8Array/Arguments.antt: js_uint8array_to_base64, _to_hex,
--   _from_base64, _from_hex, _set_from_base64 and _set_from_hex with their option parsers, on top of
--   the codecs. Engine/Result.antt: their errors, and the requests that the allocator grants.
-- - Engine/Escape.antt: isUnescaped, encodeURI_hex, js_global_escape, string_get_hex,
--   js_global_unescape. from_hex, which the repository does not hold, is a parameter.
-- - Engine/Uri.antt: isURIReserved, isURIUnescaped, hex_decode (here uri_hex_decode),
--   js_global_encodeURI, js_global_decodeURI, string_buffer_putc. from_hex and the functions on
--   surrogates are parameters; Engine/Uri/Points.antt says what they are documented to do.
-- - Engine/MapState.antt: map_find_record, map_add_record, map_delete_record, map_hash_resize and
--   map_decref_record, on a list of records and a table of buckets. Engine/MapState/Methods.antt:
--   js_map_set, _get, _has, _delete, _clear, _get_size and js_map_getOrInsert in its two forms.
--   Engine/MapState/Iterator.antt: js_map_iterator_next; Iterator/Interleaved.antt mixes its calls
--   with those on the map. Engine/MapState/Hash.antt: map_hash_key, map_normalize_key and
--   js_strict_eq2 as js_same_value_zero, with Engine/MapState/Numbers.antt for doubles as their 64
--   bits; the table takes these functions as its interface, Keys, which Coherent.antt fills.
--   Engine/MapState/Spec.antt is the abstract map, an association list in the order of insertion:
--   Refines and Runs compare the table with it, and Invariant says what the table keeps.
-- - Engine/BigInt/: Limbs.antt has the loops js_mp_add to js_mp_shr on lists of limbs, Number.antt
--   js_bigint_new, _sign, _normalize and _extend, Arith.antt js_bigint_add, _neg, _mul, _logic, _not,
--   _shl and _shr, Compare.antt js_bigint_cmp, js_bigint_get_mant_exp, js_bigint_float64_cmp and
--   js_compare_bigint. Value.antt says which integer the limbs stand for.
-- - Engine/Promise/: State.antt has the data of promises, resolving functions and the queue of jobs,
--   with JS_EnqueueJob, JS_SetHostPromiseRejectionTracker and the calls of the host's tracker, which
--   is a parameter, Host, of all that follows; Settle.antt fulfill_or_reject_promise,
--   perform_promise_then and js_promise_resolve_function_call; Operations.antt the functions that
--   call them, from js_promise_new to JS_ExecutePendingJob. Scripts.antt is what may happen: calls of
--   these functions, nested in the code that they run, and trackers that run such scripts, to any
--   depth. Closed.antt and Kept.antt show that what the small steps keep is kept by all of it.
-- - Engine/Date/Calendar.antt: math_mod, floor_div_int64.
-- - Engine/Date/Year.antt: days_from_year, days_in_year, year_from_days.
-- - Engine/Date/Fields.antt: get_date_fields, time_clip, set_date_fields.
-- - Engine/Date/Access.antt: get_date_field, set_date_field, js_Date_UTC.
-- - Engine/Date/Print.antt: get_date_string. Engine/Date/Scan.antt: string_skip_char,
--   string_get_digits, string_get_milliseconds, string_get_tzoffset. Engine/Date/Iso.antt:
--   js_date_parse_isostring, and js_Date_parse for any
--   js_date_parse_otherstring.
-- - Cli/ResultPipe.antt: src/commands/test-result-pipe.ts, the reader of the one line of JSON that
--   a test child writes to its pipe, as a state and one function per event, and the writer.
--   Protocol states what the two sides agree on, and Runs compares the reader with it.
--
-- A C function has its own name here, less a prefix (u8a_hex_decode is hex_decode, floor_div_int64
-- is floor_div); a TypeScript function has its name in snake case. A buffer is a list of bytes, and
-- a position in it is the length of what was read or written before. A bit operation is the one of
-- the source on natural numbers, cut to the width of its C type where the type can be exceeded:
-- uint32_t in the accumulator of a base64 group, uint8_t in every byte written. The integers of the
-- calendar are not cut, since for the days of a Date (at most 10 ^ 8 from 1970) no step leaves 64
-- bits; doubles that hold integers are these integers, exact below 2 ^ 53.
--
-- All loops are structural but that of year_from_days, which has fuel 2: its first guess is off by a
-- year at most, so that one round corrects it and the next one breaks. A number is printed with fuel
-- 10, which is the count of digits of the largest int.
--
-- A record of a Map is named by its address, a number that grows with every record made; a table
-- whose counts exceed 32 bits does not fit in memory, so that they are not cut. Callbacks of
-- getOrInsertComputed are any change of the table in Methods, and calls of its methods in Spec.
--
-- A limb is a natural number, cut to 32 bits where uint32_t wraps. The functions of a promise run code
-- that is a change of the runtime in Operations, and a script of calls in Scripts; a promise and the
-- flag of two resolving functions are named by their place in the list of all of them, since what
-- nobody refers to any more does no harm there.
--
-- Not modelled: of BigInt division, powers and the conversions from and to strings and doubles; of
-- promises the combinators (all, any, race), finally, withResolvers, async functions and promise
-- hooks. Nor: what a function asks of the allocator, of getTimezoneOffset, of JSON and of the pipe
-- is a parameter; reference counts of values and the release of memory; a failure of the string
-- buffers of escape, encodeURI and decodeURI; of Map the constructor, forEach, groupBy and the lists
-- of weak references; of Date the constructor and js_date_parse_otherstring; the remainder of the
-- engine (parser, interpreter, collector, other built-ins) and of the program.
pub mod Base
pub mod Engine
pub mod Cli

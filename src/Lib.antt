-- ===== src/Lib.antt =====
-- trace-cruncher: Python bindings and helpers for tracing on Linux. This development models the parts
-- of its C code that carry logic of their own.
--
-- Parts, and the files that model them:
--   Base    the shared names: Boolean tests on numbers, lists indexed by native numbers, C integers.
--   Text    src/common.h (optional arguments: lax_cmp, is_all, is_no_arg, is_set), and trim_new_line
--           and fname_unify of src/ftracepy-utils.c.
--   Alloc   the outcome of each allocation as an input; a NULL or freed pointer that is followed, or a
--           read outside an array, is a fault.
--   Dbg     src/trace-obj-debug.c: from names to addresses and file offsets, and back. Dbg.Bfd is the
--           interface of the bfd library, a parameter. Sections is process_bfd_section, Lookup is
--           lookup_bfd_sym, Objects is read_all_bfd and below, Filemap is dbg_trace_get_filemap, Context
--           is struct dbg_trace_context with what builds it (Context.Libs from a program), Requests is
--           dbg_trace_add_resolve_symbol, Resolve is dbg_trace_resolve_symbols, Walk is
--           dbg_trace_walk_resolved_symbols, Destroy is what is freed in the end.
--   Blocks  the blocks of memory that a structure owns, named by the way that leads to them, and what a
--           function frees as a list of these names. Dbg.Destroy and Utrace.Destroy use it.
--   Py      the readers of Python lists of src/tcrunch-base.c.
--   Wait    tc_wait_condition of src/tcrunch-base.c, and PyFtrace_wait of src/ftracepy-utils.c (Command),
--           which calls it with what the readers of Py give. Threads is the same function from the start
--           of the user job on, as steps that interleave with those of run_user_job and of the signal
--           handlers.
--   Ftrace  files, PIDs, tracers and events of tracefs in src/ftracepy-utils.c. libtracefs is the record
--           Tracefs of functions on an abstract state, a parameter. ErrorLog is the error log and how an
--           error of Python gets its text (LogLib, a parameter), Methods the optional instance,
--           Lists the lists of tracers, systems, events and options (ListLib, a parameter).
--   Utrace  the user-space tracer of src/ftracepy-utils.c: the list of functions, the names of events,
--           the callback that creates probes (Probes), py_utrace_generate_uprobes (Generate), and
--           utrace_wait_pid (Session). Its requests go to Dbg, whose symbols come back to the callback.
--           The dynamic events of libtracefs are the record Dynevents, a parameter. Create makes a
--           tracer (utrace_new, PyFtrace_user_trace), Enable switches it on and off, and puts Generate,
--           Session and the PIDs of Ftrace together. Destroy is py_utrace_destroy and py_utrace_free.
--   Trace   the sessions of src/ftracepy-utils.c that pass events to a Python callback, trace a program
--           or read a trace. They use Ftrace; Enable shares their model of fork.
--   Objects the macro C_OBJECT_WRAPPER of src/common.h and the flag that says whether a Python object
--           removes its event or instance from the system (set_destroy_flag, PyDynevent_register,
--           PySynthEvent_register and their opposites), and the instances (Instances). The libraries are
--           the records Handles and InstanceLib, parameters.
--   Dynevent
--           the functions of src/ftracepy-utils.c that make probes and list, enable and filter dynamic and
--           synthetic events, on the objects of Objects and the events of Ftrace. What libtracefs does is
--           the record DyneventLib, a parameter.
--   Synth   the fields of a synthetic event, and the text that shows it, in src/ftracepy-utils.c. Its
--           parameter is the record SynthLib.
--   Record  the fields of a trace record (PyTepEvent_parse_record_field, get_pid of
--           src/ftracepy-utils.c). The event of libtraceevent is the record TepEvent, a parameter.
--   Tep     the handle of libtraceevent, the names of the fields of an event and the methods that print
--           records, in src/ftracepy-utils.c. They take the PID of a record from Record. What libtraceevent
--           and /proc give is the record TepLib, a parameter.
--   Version check_kernel_support of src/ftracepy-utils.c, which the eprobes of Dynevent ask.
--   Hist    the keys, axes, sort keys (Sort) and commands (Commands) of histograms in
--           src/ftracepy-utils.c. The histograms of libtracefs are the records HistLib and HistCommands,
--           parameters.
--   KShark  the tasks and the clock of a data stream in src/ksharkpy-utils.c; Streams is the rest of that
--           file, and src/trace2matrix.c, on the record KsharkLib, a parameter.
--
-- State is passed explicitly: a function of C that changes an object returns the object after it, with
-- its return value. A linked list is a List, a pointer into it is a position. A call of C that runs
-- out of memory is modelled by the list of outcomes that it is given; past its end all succeed.
--
-- Bounds: addresses are numbers below 2 ^ 64, and where the code adds or subtracts addresses the
-- wrap-around is written out. No function runs on fuel: every loop is structural recursion on the list
-- that it walks. The loops that wait are given their rounds as a list, and an end of
-- that list means that they are still waiting.
--
-- Not modelled: the texts of error messages, the parsing of Python arguments, tables of methods,
-- declarations and documentation strings, the reading of the link /proc/PID/exe, and what the libraries
-- do behind their calls (libtracefs, libtraceevent, libkshark, bfd).
pub mod Base
pub mod Text
pub mod Alloc
pub mod Blocks
pub mod Dbg
pub mod Py
pub mod Wait
pub mod Ftrace
pub mod Utrace
pub mod Objects
pub mod Version
pub mod Hist
pub mod Trace
pub mod Dynevent
pub mod Synth
pub mod Record
pub mod KShark
pub mod Tep

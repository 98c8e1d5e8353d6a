-- ===== src/Categories.antt =====
-- The tables of categories, filters and headers at the top of scripts/cpplint.py.
use csci.Prelude.{List, [], ◌∷◌, Text, text}

-- `_ERROR_CATEGORIES`
unfoldable pub error_categories : List Text
error_categories =
    text "build/class"
    ∷ text "build/c++11"
    ∷ text "build/c++14"
    ∷ text "build/c++tr1"
    ∷ text "build/deprecated"
    ∷ text "build/endif_comment"
    ∷ text "build/explicit_make_pair"
    ∷ text "build/forward_decl"
    ∷ text "build/header_guard"
    ∷ text "build/include"
    ∷ text "build/include_alpha"
    ∷ text "build/include_order"
    ∷ text "build/include_what_you_use"
    ∷ text "build/namespaces"
    ∷ text "build/printf_format"
    ∷ text "build/storage_class"
    ∷ text "legal/copyright"
    ∷ text "readability/alt_tokens"
    ∷ text "readability/braces"
    ∷ text "readability/casting"
    ∷ text "readability/check"
    ∷ text "readability/constructors"
    ∷ text "readability/fn_size"
    ∷ text "readability/inheritance"
    ∷ text "readability/multiline_comment"
    ∷ text "readability/multiline_string"
    ∷ text "readability/namespace"
    ∷ text "readability/nolint"
    ∷ text "readability/nul"
    ∷ text "readability/strings"
    ∷ text "readability/todo"
    ∷ text "readability/utf8"
    ∷ text "runtime/arrays"
    ∷ text "runtime/casting"
    ∷ text "runtime/explicit"
    ∷ text "runtime/int"
    ∷ text "runtime/init"
    ∷ text "runtime/invalid_increment"
    ∷ text "runtime/member_string_references"
    ∷ text "runtime/memset"
    ∷ text "runtime/indentation_namespace"
    ∷ text "runtime/operator"
    ∷ text "runtime/printf"
    ∷ text "runtime/printf_format"
    ∷ text "runtime/references"
    ∷ text "runtime/string"
    ∷ text "runtime/threadsafe_fn"
    ∷ text "runtime/vlog"
    ∷ text "whitespace/blank_line"
    ∷ text "whitespace/braces"
    ∷ text "whitespace/comma"
    ∷ text "whitespace/comments"
    ∷ text "whitespace/empty_conditional_body"
    ∷ text "whitespace/empty_if_body"
    ∷ text "whitespace/empty_loop_body"
    ∷ text "whitespace/end_of_line"
    ∷ text "whitespace/ending_newline"
    ∷ text "whitespace/forcolon"
    ∷ text "whitespace/indent"
    ∷ text "whitespace/line_length"
    ∷ text "whitespace/newline"
    ∷ text "whitespace/operators"
    ∷ text "whitespace/parens"
    ∷ text "whitespace/semicolon"
    ∷ text "whitespace/tab"
    ∷ text "whitespace/todo"
    ∷ []

-- `_LEGACY_ERROR_CATEGORIES`
unfoldable pub legacy_error_categories : List Text
legacy_error_categories = text "readability/streams" ∷ text "readability/function" ∷ []

-- `_DEFAULT_FILTERS`
unfoldable pub default_filters : List Text
default_filters = text "-build/include_alpha" ∷ []

-- `_DEFAULT_C_SUPPRESSED_CATEGORIES`
unfoldable pub default_c_suppressed : List Text
default_c_suppressed = text "readability/casting" ∷ []

-- `_DEFAULT_KERNEL_SUPPRESSED_CATEGORIES`
unfoldable pub default_kernel_suppressed : List Text
default_kernel_suppressed = text "whitespace/tab" ∷ []

-- `_CPP_HEADERS`
unfoldable pub cpp_headers : List Text
cpp_headers =
    text "algobase.h"
    ∷ text "algo.h"
    ∷ text "alloc.h"
    ∷ text "builtinbuf.h"
    ∷ text "bvector.h"
    ∷ text "complex.h"
    ∷ text "defalloc.h"
    ∷ text "deque.h"
    ∷ text "editbuf.h"
    ∷ text "fstream.h"
    ∷ text "function.h"
    ∷ text "hash_map"
    ∷ text "hash_map.h"
    ∷ text "hash_set"
    ∷ text "hash_set.h"
    ∷ text "hashtable.h"
    ∷ text "heap.h"
    ∷ text "indstream.h"
    ∷ text "iomanip.h"
    ∷ text "iostream.h"
    ∷ text "istream.h"
    ∷ text "iterator.h"
    ∷ text "list.h"
    ∷ text "map.h"
    ∷ text "multimap.h"
    ∷ text "multiset.h"
    ∷ text "ostream.h"
    ∷ text "pair.h"
    ∷ text "parsestream.h"
    ∷ text "pfstream.h"
    ∷ text "procbuf.h"
    ∷ text "pthread_alloc"
    ∷ text "pthread_alloc.h"
    ∷ text "rope"
    ∷ text "rope.h"
    ∷ text "ropeimpl.h"
    ∷ text "set.h"
    ∷ text "slist"
    ∷ text "slist.h"
    ∷ text "stack.h"
    ∷ text "stdiostream.h"
    ∷ text "stl_alloc.h"
    ∷ text "stl_relops.h"
    ∷ text "streambuf.h"
    ∷ text "stream.h"
    ∷ text "strfile.h"
    ∷ text "strstream.h"
    ∷ text "tempbuf.h"
    ∷ text "tree.h"
    ∷ text "type_traits.h"
    ∷ text "vector.h"
    ∷ text "algorithm"
    ∷ text "array"
    ∷ text "atomic"
    ∷ text "bitset"
    ∷ text "chrono"
    ∷ text "codecvt"
    ∷ text "complex"
    ∷ text "condition_variable"
    ∷ text "deque"
    ∷ text "exception"
    ∷ text "forward_list"
    ∷ text "fstream"
    ∷ text "functional"
    ∷ text "future"
    ∷ text "initializer_list"
    ∷ text "iomanip"
    ∷ text "ios"
    ∷ text "iosfwd"
    ∷ text "iostream"
    ∷ text "istream"
    ∷ text "iterator"
    ∷ text "limits"
    ∷ text "list"
    ∷ text "locale"
    ∷ text "map"
    ∷ text "memory"
    ∷ text "mutex"
    ∷ text "new"
    ∷ text "numeric"
    ∷ text "ostream"
    ∷ text "queue"
    ∷ text "random"
    ∷ text "ratio"
    ∷ text "regex"
    ∷ text "scoped_allocator"
    ∷ text "set"
    ∷ text "sstream"
    ∷ text "stack"
    ∷ text "stdexcept"
    ∷ text "streambuf"
    ∷ text "string"
    ∷ text "strstream"
    ∷ text "system_error"
    ∷ text "thread"
    ∷ text "tuple"
    ∷ text "typeindex"
    ∷ text "typeinfo"
    ∷ text "type_traits"
    ∷ text "unordered_map"
    ∷ text "unordered_set"
    ∷ text "utility"
    ∷ text "valarray"
    ∷ text "vector"
    ∷ text "cassert"
    ∷ text "ccomplex"
    ∷ text "cctype"
    ∷ text "cerrno"
    ∷ text "cfenv"
    ∷ text "cfloat"
    ∷ text "cinttypes"
    ∷ text "ciso646"
    ∷ text "climits"
    ∷ text "clocale"
    ∷ text "cmath"
    ∷ text "csetjmp"
    ∷ text "csignal"
    ∷ text "cstdalign"
    ∷ text "cstdarg"
    ∷ text "cstdbool"
    ∷ text "cstddef"
    ∷ text "cstdint"
    ∷ text "cstdio"
    ∷ text "cstdlib"
    ∷ text "cstring"
    ∷ text "ctgmath"
    ∷ text "ctime"
    ∷ text "cuchar"
    ∷ text "cwchar"
    ∷ text "cwctype"
    ∷ []

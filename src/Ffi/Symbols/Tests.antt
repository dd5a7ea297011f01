-- ===== src/Ffi/Symbols/Tests.antt =====
-- The symbol table's theorems at the table that the program starts with.
use jdruby.Base.{String, arith}
use jdruby.Base.Assoc.{lookup, insert}
use jdruby.Ffi.Symbols
use jdruby.Ffi.Symbols.{SymbolTable, intern}
use jdruby.Ffi.Symbols.Laws.{Interns, intern-Interns, new-IsTable}

intern-Interns_example : Interns "attr_reader" Symbols.new (intern "attr_reader" Symbols.new)
unfolding Symbols.new Symbols.intern_all intern lookup insert
intern-Interns_example = intern-Interns "attr_reader" Symbols.new new-IsTable (omega arith)

abbrev puts : String
puts = "puts"
